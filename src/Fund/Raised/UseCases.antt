-- ===== src/Fund/Raised/UseCases.antt =====
-- The operations of payfund_app/modules/fund keep what each campaign has raised equal to its investments.
use diddi_pay_backend.Prelude.{ℕ, String, Option, none, some}
use diddi_pay_backend.Prelude.Int.{ℤ}
use diddi_pay_backend.Prelude.Actions.Rules.{Maintains, maintains_rules}
use diddi_pay_backend.Fund.Loan.{Date}
use diddi_pay_backend.Fund.Tables.{Campaign, Investment, Loan, RepaymentSchedule}
use diddi_pay_backend.Fund.Ports.{WalletServicePort, ScoringPort}
use diddi_pay_backend.Fund.Repositories.{Fund}
use diddi_pay_backend.Fund.Campaigns.{
  InvestmentResult, creer_campagne, check_campaign, record_investment, unless_recorded, investir,
}
use diddi_pay_backend.Fund.Loans.{
  loan_of, impute, mark_disbursed, simuler, demander, disburse, decaisser, repay, rembourser,
}
use diddi_pay_backend.Fund.Raised.{IsRaised}
use diddi_pay_backend.Fund.Raised.Campaigns.{create_campaign-Maintains, invest-Maintains}
use diddi_pay_backend.Fund.Raised.Others.{
  from_wallet-Maintains, save_loan-Maintains, save_installment-Maintains, create_loan-Maintains,
  changer_statut-Maintains, ajouter_echeances-Maintains,
}

module _ {W : Type 0} where
  loan_of-Maintains : (loan_id user_id : ℕ) → Maintains (IsRaised {W = W}) (loan_of loan_id user_id)
  unfolding loan_of
  loan_of-Maintains loan_id user_id = search maintains_rules depth 8

  impute-Maintains :
      (loan : Loan) (row : RepaymentSchedule) (amount : ℤ) (transaction : ℕ)
      → Maintains (IsRaised {W = W}) (impute loan row amount transaction)
  unfolding impute
  impute-Maintains loan row amount transaction =
      search
        (maintains_rules, save_loan-Maintains, save_installment-Maintains, changer_statut-Maintains)
        depth 30

  mark_disbursed-Maintains :
      (loan : Loan) (transaction : ℕ)
      → Maintains (IsRaised {W = W}) (mark_disbursed loan transaction)
  unfolding mark_disbursed
  mark_disbursed-Maintains loan transaction =
      search (maintains_rules, save_loan-Maintains, changer_statut-Maintains) depth 12

module _ {W : Type 0} (wallet : WalletServicePort W) (id_text : ℕ → String) where
  check_campaign-Maintains :
      (c : Campaign) (user_id : ℕ)
      → Maintains (IsRaised {W = W}) (check_campaign wallet id_text c user_id)
  unfolding check_campaign
  check_campaign-Maintains c user_id = search maintains_rules depth 8

  record_investment-Maintains :
      (campaign_id user_id : ℕ) (amount : ℤ) (transaction : ℕ)
      → Maintains
          (IsRaised {W = W})
          (record_investment wallet id_text campaign_id user_id amount transaction)
  unfolding record_investment
  record_investment-Maintains campaign_id user_id amount transaction =
      invest-Maintains campaign_id user_id amount (some transaction) none _
        (λ row. record { at = λ s h. h })

  unless_recorded-Maintains :
      (id : ℕ) (o : Option Investment) (m : Fund W InvestmentResult)
      → Maintains IsRaised m
      → Maintains IsRaised (unless_recorded wallet id_text id o m)
  unless_recorded-Maintains id none m h = record { at = h.at }
  unless_recorded-Maintains id (some i) m h = record { at = λ s k. k }

  pub creer_campagne-Maintains :
      (user_id : ℕ) (title : String) (goal : ℤ) (currency : String)
      → Maintains IsRaised (creer_campagne wallet id_text user_id title goal currency)
  unfolding creer_campagne
  creer_campagne-Maintains user_id title goal currency =
      search (maintains_rules, from_wallet-Maintains, create_campaign-Maintains) depth 8

  pub investir-Maintains :
      (campaign_id user_id : ℕ) (amount : ℤ) (pin key : String)
      → Maintains IsRaised (investir wallet id_text campaign_id user_id amount pin key)
  unfolding investir
  investir-Maintains campaign_id user_id amount pin key =
      search
        (
          maintains_rules, from_wallet-Maintains, check_campaign-Maintains,
          unless_recorded-Maintains, record_investment-Maintains,
        )
        depth 30

  module _ (scoring : ScoringPort) where
    simuler-Maintains :
        (user_id : ℕ) (amount months : ℤ)
        → Maintains (IsRaised {W = W}) (simuler wallet scoring id_text user_id amount months)
    unfolding simuler
    simuler-Maintains user_id amount months = search maintains_rules depth 3

    pub demander-Maintains :
        (campaign_id user_id : ℕ) (amount months : ℤ)
        → Maintains IsRaised (demander wallet scoring id_text campaign_id user_id amount months)
    unfolding demander
    demander-Maintains campaign_id user_id amount months =
        search (maintains_rules, simuler-Maintains, create_loan-Maintains) depth 20

    disburse-Maintains :
        (loan : Loan) (today : Date)
        → Maintains IsRaised (disburse wallet scoring id_text loan today)
    unfolding disburse
    disburse-Maintains loan today =
        search
          (
            maintains_rules, from_wallet-Maintains, ajouter_echeances-Maintains,
            mark_disbursed-Maintains,
          )
          depth 30

    pub decaisser-Maintains :
        (loan_id : ℕ) (today : Date)
        → Maintains IsRaised (decaisser wallet scoring id_text loan_id today)
    unfolding decaisser
    decaisser-Maintains loan_id today = search (maintains_rules, disburse-Maintains) depth 10

    repay-Maintains :
        (loan : Loan) (row : RepaymentSchedule) (amount : ℤ) (key : String)
        → Maintains IsRaised (repay wallet scoring id_text loan row amount key)
    unfolding repay
    repay-Maintains loan row amount key =
        search (maintains_rules, from_wallet-Maintains, impute-Maintains) depth 20

    pub rembourser-Maintains :
        (loan_id user_id : ℕ) (amount : ℤ) (pin key : String)
        → Maintains IsRaised (rembourser wallet scoring id_text loan_id user_id amount pin key)
    unfolding rembourser
    rembourser-Maintains loan_id user_id amount pin key =
        search (maintains_rules, from_wallet-Maintains, loan_of-Maintains, repay-Maintains) depth 20
