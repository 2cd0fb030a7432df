-- ===== src/Fund/Loans.antt =====
-- payfund_app/modules/fund/application/use_cases.py: `LoanUseCases`.
pub mod Disbursed
pub mod Stuck
pub mod Holds
pub mod Credited
pub mod Pays
use diddi_pay_backend.Prelude.{
  ℕ, ◌/◌, Bool, false, not, String, concat, Option, none, some, List, ◌==◌, ◌is◌, find_row,
  if◌then◌else◌,
}
use diddi_pay_backend.Prelude.Int.{ℤ, pos, ◌+ℤ◌, ◌-ℤ◌, ltb_ℤ}
use diddi_pay_backend.Prelude.Actions.{
  Result, ok, err, pure, gets, lift, branch, raise_if, or_raise, ◌>>=◌, ◌>>◌,
}
use diddi_pay_backend.Wallet.Entities.{fund_disbursement, fund_repayment}
use diddi_pay_backend.Fund.Loan.{
  Date, LoanTerms, LoanResult, accepted, refused, compute_terms, build_schedule,
}
use diddi_pay_backend.Fund.Status.{LoanStatus, InstallmentStatus, loan_enum}
use diddi_pay_backend.Fund.Tables.{
  FundError, campaign_not_found, loan_not_found, invalid_loan_terms, not_campaign_owner,
  installment_already_paid, repayment_exceeds_installment, loan_not_disbursed,
  loan_already_disbursed, Loan, RepaymentSchedule, Tables,
}
use diddi_pay_backend.Fund.Ports.{WalletServicePort, ScoringPort}
use diddi_pay_backend.Fund.Repositories.{Fund, is_present, get_campaign}
use diddi_pay_backend.Fund.Repositories.Schedules.{
  get_loan, create_loan, save_loan, list_by_borrower, changer_statut, ajouter_echeances, echeancier,
  is_unpaid, prochaine_echeance, save_installment,
}
use diddi_pay_backend.Fund.Campaigns.{from_wallet}

abbrev terms_or : LoanResult LoanTerms → Result FundError LoanTerms
terms_or (accepted terms) = ok terms
terms_or (refused e) = err invalid_loan_terms

-- The terms of a loan that was granted.
abbrev pub granted_terms : Loan → LoanTerms
granted_terms loan = record {
  principal = loan.principal_amount;
  duration_months = loan.duration_months;
  interest_rate_applied = loan.interest_rate_applied;
  total_repayable = loan.total_repayable;
  monthly_installment = loan.total_repayable / loan.duration_months;
}

abbrev disbursed : ℕ → ℕ → Loan → Loan
disbursed now wallet_transaction_id row = record row {
  disbursed_at = some now;
  wallet_transaction_id = some wallet_transaction_id;
}

-- What a payment does to an installment.
abbrev pub paid_by : ℤ → ℕ → RepaymentSchedule → RepaymentSchedule
paid_by amount now row =
    if not (ltb_ℤ (row.amount_paid +ℤ amount) row.amount_due)
    then record row {
      amount_paid = row.amount_paid +ℤ amount;
      status = InstallmentStatus.paid;
      paid_at = some now;
    }
    else record row { amount_paid = row.amount_paid +ℤ amount }

-- A loan that belongs to the borrower.
abbrev pub is_borrowers : ℕ → Option Loan → Bool
is_borrowers user_id none = false
is_borrowers user_id (some loan) = loan.borrower_user_id == user_id

module _ {W : Type 0} where
  unfoldable pub loan_of : ℕ → ℕ → Fund W Loan
  loan_of loan_id user_id = do
    found ← gets (get_loan loan_id)
    raise_if (not (is_borrowers user_id found)) loan_not_found
    or_raise found loan_not_found

  -- `lister_prets`
  unfoldable pub lister_prets : ℕ → Option LoanStatus → ℕ → ℕ → Tables W → List Loan × ℕ
  lister_prets borrower_user_id status page page_size =
      list_by_borrower borrower_user_id status page page_size

  -- `detail`
  unfoldable pub loan_detail : ℕ → ℕ → Fund W (Loan × Option RepaymentSchedule)
  loan_detail loan_id user_id = do
    loan ← loan_of loan_id user_id
    rows ← gets (echeancier loan_id)
    pure (loan, find_row is_unpaid rows)

  -- `echeancier`
  unfoldable pub loan_schedule : ℕ → ℕ → Fund W (List RepaymentSchedule)
  loan_schedule loan_id user_id = do loan ← loan_of loan_id user_id; gets (echeancier loan_id)

  -- The changes of `rembourser` once the money has moved.
  unfoldable pub impute : Loan → RepaymentSchedule → ℤ → ℕ → Fund W (Loan × RepaymentSchedule)
  impute loan echeance amount wallet_transaction_id = do
    save_loan loan.id (λ row. record row { wallet_transaction_id = some wallet_transaction_id })
    now ← gets (λ s. s.clock)
    save_installment echeance.id (paid_by amount now)
    branch (loan.status is LoanStatus.disbursed) (changer_statut loan LoanStatus.repaying) (pure tt)
    next ← gets (prochaine_echeance loan.id)
    found ← gets (get_loan loan.id)
    current ← or_raise found loan_not_found
    branch (is_present next) (pure tt) (changer_statut current LoanStatus.closed)
    last ← gets (get_loan loan.id)
    answer ← or_raise last loan_not_found
    pure (answer, paid_by amount now echeance)

  -- The changes of `decaisser` to the loan once its schedule is stored.
  unfoldable pub mark_disbursed : Loan → ℕ → Fund W Loan
  mark_disbursed loan wallet_transaction_id = do
    now ← gets (λ s. s.clock)
    save_loan loan.id (disbursed now wallet_transaction_id)
    changer_statut loan LoanStatus.disbursed
    last ← gets (get_loan loan.id)
    or_raise last loan_not_found

module _ {W : Type 0} (wallet : WalletServicePort W) (scoring : ScoringPort)
    (id_text : ℕ → String) where
  -- `simuler`
  unfoldable pub simuler : ℕ → ℤ → ℤ → Fund W LoanTerms
  simuler user_id amount duration_months =
      lift (terms_or (compute_terms amount duration_months (scoring.taux_pour user_id)))

  -- `demander`
  unfoldable pub demander : ℕ → ℕ → ℤ → ℤ → Fund W Loan
  demander campaign_id borrower_user_id amount duration_months = do
    found ← gets (get_campaign campaign_id)
    campaign ← or_raise found campaign_not_found
    raise_if (not (campaign.owner_user_id == borrower_user_id)) not_campaign_owner
    terms ← simuler borrower_user_id amount duration_months
    create_loan campaign_id borrower_user_id terms.principal terms.duration_months
        terms.interest_rate_applied terms.total_repayable campaign.currency
        (scoring.score_de borrower_user_id)

  abbrev pub disbursement_key : ℕ → String
  disbursement_key loan_id = concat "fund:loan:disbursement:" (id_text loan_id)

  -- `decaisser` on a loan that is pending
  unfoldable pub disburse : Loan → Date → Fund W Loan
  disburse loan today = do
    found ← gets (get_campaign loan.campaign_id)
    campaign ← or_raise found campaign_not_found
    borrower_account ← from_wallet (wallet.compte_de_utilisateur loan.borrower_user_id)
    wallet_transaction_id ← from_wallet (
        wallet.crediter borrower_account campaign.wallet_account_id (pos loan.principal_amount)
          (disbursement_key loan.id) (disbursement_key loan.id) fund_disbursement (some "fund"))
    ajouter_echeances loan.id (build_schedule (granted_terms loan) today)
    mark_disbursed loan wallet_transaction_id

  -- `decaisser`
  unfoldable pub decaisser : ℕ → Date → Fund W Loan
  decaisser loan_id today = do
    found ← gets (get_loan loan_id)
    loan ← or_raise found loan_not_found
    raise_if (not (loan.status is LoanStatus.pending)) loan_already_disbursed
    disburse loan today

  -- `rembourser` on the next installment, with its checks
  unfoldable pub repay : Loan → RepaymentSchedule → ℤ → String → Fund W (Loan × RepaymentSchedule)
  repay loan echeance amount idempotency_key = do
    raise_if (ltb_ℤ (echeance.amount_due -ℤ echeance.amount_paid) amount)
        repayment_exceeds_installment
    found ← gets (get_campaign loan.campaign_id)
    campaign ← or_raise found campaign_not_found
    borrower_account ← from_wallet (wallet.compte_de_utilisateur loan.borrower_user_id)
    wallet_transaction_id ← from_wallet (
        wallet.debiter borrower_account campaign.wallet_account_id amount
          (concat "fund:loan:repayment:" (id_text loan.id)) idempotency_key fund_repayment
          (some "fund"))
    impute loan echeance amount wallet_transaction_id

  -- `rembourser`
  unfoldable pub rembourser : ℕ → ℕ → ℤ → String → String → Fund W (Loan × RepaymentSchedule)
  rembourser loan_id borrower_user_id amount pin idempotency_key = do
    from_wallet (wallet.verifier_pin_utilisateur borrower_user_id pin)
    loan ← loan_of loan_id borrower_user_id
    raise_if (loan.status is LoanStatus.pending) loan_not_disbursed
    next ← gets (prochaine_echeance loan_id)
    echeance ← or_raise next installment_already_paid
    repay loan echeance amount idempotency_key
