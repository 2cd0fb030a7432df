-- ===== src/Fund/Loans/Pays.antt =====
-- The money of a loan of payfund_app/modules/fund/application/use_cases.py: `decaisser` and `rembourser` with
-- a wallet that keeps its contract.
use diddi_pay_backend.Prelude.{
  ℕ, ◌≡◌, refl, ap, sym, ◌∙◌, subst, Bool, true, false, String, some, ◌is◌, concat, Bool-cases, inl,
  inr,
}
use diddi_pay_backend.Prelude.Int.{ℤ, pos, ltb_ℤ, ◌-ℤ◌, ◌+ℤ◌}
use diddi_pay_backend.Prelude.Actions.{◌>>=◌, ◌>>◌}
use diddi_pay_backend.Prelude.Actions.Rules.{Maintains, Maintains-bind}
use diddi_pay_backend.Prelude.Actions.Yields.{Ending, Ending-both}
use diddi_pay_backend.Wallet.Errors.{Result as WalletResult}
use diddi_pay_backend.Wallet.Errors as Wallet
use diddi_pay_backend.Wallet.Entities.{fund_disbursement, fund_repayment}
use diddi_pay_backend.Fund.Loan.{Date, build_schedule}
use diddi_pay_backend.Fund.Status.{LoanStatus, loan_enum}
use diddi_pay_backend.Fund.Tables.{Campaign, Loan, RepaymentSchedule, Tables}
use diddi_pay_backend.Fund.Ports.{WalletServicePort, ScoringPort}
use diddi_pay_backend.Fund.Ports.Contract.{MovesMoney, PaidUnless, Payment, Same, payment_to}
use diddi_pay_backend.Fund.Repositories.{Fund, get_campaign}
use diddi_pay_backend.Fund.Campaigns.{from_wallet}
use diddi_pay_backend.Fund.Repositories.Schedules.{get_loan, ajouter_echeances}
use diddi_pay_backend.Fund.Loans.{
  granted_terms, disbursement_key, impute, mark_disbursed, disburse, decaisser, repay,
}
use diddi_pay_backend.Fund.Loans.Credited.{IsCredited, repay-IsCredited}
use diddi_pay_backend.Fund.Loans.Holds.{
  Holds, ajouter_echeances-Holds, mark_disbursed-Holds, impute-Holds, after_call, without_wallet,
}

module _ {W : Type 0} (wallet : WalletServicePort W) (laws : MovesMoney wallet) where
  -- A payment after the account of a user was found or opened.
  Same-PaidUnless :
      (user_id from to : ℕ) (amount : ℤ) (key : String) (w w' w'' : W) (t : ℕ)
      (o : WalletResult ℕ × W)
      → Same wallet w w'
      → laws.knows key w' ≡ laws.knows key w
      → Payment wallet (laws.knows key w') from to amount w' o
      → o ≡ (Wallet.ok t, w'')
      → PaidUnless wallet (laws.knows key w) from to amount w w''
  Same-PaidUnless user_id from to amount key w w' w'' t o same known paid e =
      go (laws.knows key w) (
        subst (λ b. Payment wallet b from to amount w' (Wallet.ok t, w'')) known
          (subst (Payment wallet (laws.knows key w') from to amount w') e paid))
    where
      go :
          (b : Bool)
          → Payment wallet b from to amount w' (Wallet.ok t, w'')
          → PaidUnless wallet b from to amount w w''
      go true h = λ k. h k ∙ same k
      go false h = λ k. h k ∙ ap (λ z. z +ℤ payment_to from to amount k) (same k)

  -- The money moves between an account of the borrower and one of the campaign, unless its key is known.
  abbrev pub Settles : ℕ → (ℕ → ℕ) → (ℕ → ℕ) → ℤ → String → {A : Type 0} → W → A → Tables W → Type 0
  Settles user_id from to amount key w a s =
      (account : ℕ) × ((wallet.compte_de_utilisateur user_id w).0 ≡ Wallet.ok account)
      × PaidUnless wallet (laws.knows key w) (from account) (to account) amount w s.wallet

  -- An account of the user, a payment with it, and what follows without the wallet.
  settles_lem :
      {B : Type 0} (user_id : ℕ) (pay : ℕ → W → WalletResult ℕ × W) (from to : ℕ → ℕ) (amount : ℤ)
      (key : String) (rest : ℕ → Fund W B) (s : Tables W)
      → ((account : ℕ) (w : W)
          → Payment wallet (laws.knows key w) (from account) (to account) amount w (pay account w))
      → ((t : ℕ) (w : W) → Maintains (Holds w) (rest t))
      → Ending (Settles user_id from to amount key s.wallet) (
          (from_wallet (wallet.compte_de_utilisateur user_id) >>= λ account.
          from_wallet (pay account) >>= rest)
            s)
  settles_lem user_id pay from to amount key rest s pays holds =
      after_call (Settles user_id from to amount key s.wallet)
        (wallet.compte_de_utilisateur user_id) (λ account. from_wallet (pay account) >>= rest) s
        (λ account w opened.
          after_call (Settles user_id from to amount key s.wallet) (pay account) rest
            (record s { wallet = w })
            (λ t w' paid.
              without_wallet (Settles user_id from to amount key s.wallet) (rest t) w' (holds t w')
                (λ b s' e. (
                  account,
                  ap (λ x. x.0) opened,
                  subst
                      (PaidUnless wallet (laws.knows key s.wallet) (from account) (to account)
                        amount s.wallet)
                      (sym e)
                      (Same-PaidUnless user_id (from account) (to account) amount key s.wallet w w'
                        t (pay account w)
                        (subst (Same wallet s.wallet) (ap (λ x. x.1) opened)
                          (laws.opens user_id s.wallet))
                        (subst (λ x. laws.knows key x ≡ laws.knows key s.wallet)
                          (ap (λ x. x.1) opened) (laws.opens_knows user_id s.wallet key))
                        (pays account w) paid),
                ))
                (record s { wallet = w' }) refl))

  module _ (scoring : ScoringPort) (id_text : ℕ → String) where
    disburse-Settles :
        (loan : Loan) (today : Date) (campaign : Campaign) (s : Tables W)
        → get_campaign loan.campaign_id s ≡ some campaign
        → Ending
            (Settles loan.borrower_user_id
              (λ account. campaign.wallet_account_id)
              (λ account. account)
              (pos loan.principal_amount)
              (disbursement_key wallet scoring id_text loan.id)
              s.wallet)
            (disburse wallet scoring id_text loan today s)
    unfolding disburse
    disburse-Settles loan today campaign s found = rw found (
        settles_lem loan.borrower_user_id
          (λ account.
            wallet.crediter account campaign.wallet_account_id (pos loan.principal_amount)
              (disbursement_key wallet scoring id_text loan.id)
              (disbursement_key wallet scoring id_text loan.id) fund_disbursement (some "fund"))
          (λ account. campaign.wallet_account_id) (λ account. account) (pos loan.principal_amount)
          (disbursement_key wallet scoring id_text loan.id)
          (λ t.
            ajouter_echeances loan.id (build_schedule (granted_terms loan) today)
            >> mark_disbursed loan t)
          s (λ account w. laws.credits account campaign.wallet_account_id _ _ _ _ _ w)
          (λ t w.
            Maintains-bind (ajouter_echeances loan.id (build_schedule (granted_terms loan) today))
              (λ u. mark_disbursed loan t) (ajouter_echeances-Holds w loan.id _)
              (λ u. mark_disbursed-Holds w loan t)))

    -- With a wallet that keeps its contract, a disbursement that returns has moved the principal
    -- from the account of the campaign to an account of the borrower and changed no other balance,
    -- unless its key was known to the wallet, and then no balance has changed.
    pub decaisser-Settles :
        (loan_id : ℕ) (today : Date) (loan : Loan) (campaign : Campaign) (s : Tables W)
        → get_loan loan_id s ≡ some loan
        → get_campaign loan.campaign_id s ≡ some campaign
        → Ending
            (Settles loan.borrower_user_id
              (λ account. campaign.wallet_account_id)
              (λ account. account)
              (pos loan.principal_amount)
              (disbursement_key wallet scoring id_text loan.id)
              s.wallet)
            (decaisser wallet scoring id_text loan_id today s)
    unfolding decaisser
    decaisser-Settles loan_id today loan campaign s found of =
        rw found (elim (Bool-cases (loan.status is LoanStatus.pending)) [
          | inl waits ↦ rw waits (disburse-Settles loan today campaign s of)
          | inr done ↦ rw done tt
        ])

    repay_moves :
        (loan : Loan) (row : RepaymentSchedule) (amount : ℤ) (key : String) (campaign : Campaign)
        (s : Tables W)
        → get_campaign loan.campaign_id s ≡ some campaign
        → Ending
            (Settles loan.borrower_user_id
              (λ account. account)
              (λ account. campaign.wallet_account_id)
              amount
              key
              s.wallet)
            (repay wallet scoring id_text loan row amount key s)
    unfolding repay
    repay_moves loan row amount key campaign s found =
        elim (Bool-cases (ltb_ℤ (row.amount_due -ℤ row.amount_paid) amount)) [
          | inl above ↦ rw above tt
          | inr within ↦
              rw (within, found)
                (settles_lem loan.borrower_user_id
                  (λ account.
                    wallet.debiter account campaign.wallet_account_id amount
                      (concat "fund:loan:repayment:" (id_text loan.id)) key fund_repayment
                      (some "fund"))
                  (λ account. account) (λ account. campaign.wallet_account_id) amount key
                  (impute loan row amount) s
                  (λ account w. laws.debits account campaign.wallet_account_id _ _ _ _ _ w)
                  (λ t w. impute-Holds w loan row amount t))
        ]

    -- With a wallet that keeps its contract, a repayment that returns was of no more than what was
    -- left of the installment, and answers it with the amount added to what was paid, marked as
    -- paid once that covers what is due; the amount has moved from an account of the borrower to
    -- that of the campaign and no other balance has changed, unless its key was known to the
    -- wallet, and then no balance has changed.
    pub repay-Settles :
        (loan : Loan) (row : RepaymentSchedule) (amount : ℤ) (key : String) (campaign : Campaign)
        (s : Tables W)
        → get_campaign loan.campaign_id s ≡ some campaign
        → Ending
            (λ answer s'.
              Settles loan.borrower_user_id
                (λ account. account)
                (λ account. campaign.wallet_account_id)
                amount
                key
                s.wallet
                answer
                s'
              × IsCredited row amount answer s')
            (repay wallet scoring id_text loan row amount key s)
    repay-Settles loan row amount key campaign s found =
        Ending-both
          (Settles loan.borrower_user_id (λ account. account)
            (λ account. campaign.wallet_account_id) amount key s.wallet)
          (IsCredited row amount) _ (repay_moves loan row amount key campaign s found)
          ((repay-IsCredited wallet scoring id_text loan row amount key).at s)
