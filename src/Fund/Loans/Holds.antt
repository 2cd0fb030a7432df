-- ===== src/Fund/Loans/Holds.antt =====
-- The parts of payfund_app/modules/fund/application/use_cases.py that call the wallet, and those that leave it
-- as it is.
use diddi_pay_backend.Prelude.{ℕ, ◌≡◌, refl, not, Option, List, [], ◌∷◌}
use diddi_pay_backend.Prelude.Int.{ℤ, pos, ltb_ℤ}
use diddi_pay_backend.Prelude.Actions.{Result, ok, err, modify, raise_if, ◌>>=◌, ◌>>◌}
use diddi_pay_backend.Prelude.Actions.Rules.{
  Maintains, After, maintains_rules, Maintains-bind, Maintains-raise_if,
}
use diddi_pay_backend.Prelude.Actions.Yields.{Ending}
use diddi_pay_backend.Wallet.Errors.{Result as WalletResult}
use diddi_pay_backend.Wallet.Errors as Wallet
use diddi_pay_backend.Fund.Loan.{Installment}
use diddi_pay_backend.Fund.Status.{LoanStatus, loan_enum}
use diddi_pay_backend.Fund.Tables.{FundError, integrity_error, Loan, RepaymentSchedule, Tables}
use diddi_pay_backend.Fund.Repositories.{Fund}
use diddi_pay_backend.Fund.Repositories.Schedules.{
  save_loan, tracer_statut, changer_statut, with_installment, ajouter_echeances, save_installment,
}
use diddi_pay_backend.Fund.Campaigns.{from_wallet}
use diddi_pay_backend.Fund.Loans.{impute, mark_disbursed}

module _ {W : Type 0} (w : W) where
  -- The wallet of the tables.
  abbrev pub Holds : Tables W → Type 0
  Holds s = s.wallet ≡ w

  tracer_statut-Holds :
      (id : ℕ) (from : Option LoanStatus) (to : LoanStatus)
      → Maintains Holds (tracer_statut id from to)
  unfolding tracer_statut
  tracer_statut-Holds id from to = record { at = λ s h. h }

  save_loan-Holds : (id : ℕ) (f : Loan → Loan) → Maintains Holds (save_loan id f)
  unfolding save_loan
  save_loan-Holds id f = record { at = λ s h. h }

  save_installment-Holds :
      (id : ℕ) (f : RepaymentSchedule → RepaymentSchedule) → Maintains Holds (save_installment id f)
  unfolding save_installment
  save_installment-Holds id f = record { at = λ s h. h }

  changer_statut-Holds : (loan : Loan) (to : LoanStatus) → Maintains Holds (changer_statut loan to)
  unfolding changer_statut
  changer_statut-Holds loan to =
      search (maintains_rules, save_loan-Holds, tracer_statut-Holds) depth 8

  pub ajouter_echeances-Holds :
      (id : ℕ) (rows : List Installment) → Maintains Holds (ajouter_echeances id rows)
  unfolding ajouter_echeances
  ajouter_echeances-Holds id [] = record { at = λ s h. h }
  ajouter_echeances-Holds id (row ∷ rows) =
      Maintains-bind (raise_if (not (ltb_ℤ (pos 0) row.amount_due)) integrity_error)
        (λ checked. modify (with_installment id row) >> ajouter_echeances id rows)
        (Maintains-raise_if _ _)
        (λ checked.
          Maintains-bind (modify (with_installment id row)) (λ added. ajouter_echeances id rows)
            (record { at = λ s h. h }) (λ added. ajouter_echeances-Holds id rows))

  pub mark_disbursed-Holds :
      (loan : Loan) (transaction : ℕ) → Maintains Holds (mark_disbursed loan transaction)
  unfolding mark_disbursed
  mark_disbursed-Holds loan transaction =
      search (maintains_rules, save_loan-Holds, changer_statut-Holds) depth 12

  pub impute-Holds :
      (loan : Loan) (row : RepaymentSchedule) (amount : ℤ) (transaction : ℕ)
      → Maintains Holds (impute loan row amount transaction)
  unfolding impute
  impute-Holds loan row amount transaction =
      search (maintains_rules, save_loan-Holds, save_installment-Holds, changer_statut-Holds) depth
        30

module _ {W B : Type 0} (P : B → Tables W → Type 0) where
  -- A call of the wallet that answers, and what follows it.
  pub after_call :
      {A : Type 0} (call : W → WalletResult A × W) (f : A → Fund W B) (s : Tables W)
      → ((a : A) (w : W)
          → call s.wallet ≡ (Wallet.ok a, w)
          → Ending P (f a (record s { wallet = w })))
      → Ending P ((from_wallet call >>= f) s)
  after_call {A = A} call f s h = go (call s.wallet) refl
    where
      go : (o : WalletResult A × W) → call s.wallet ≡ o → Ending P ((from_wallet (λ w. o) >>= f) s)
      go (Wallet.ok a, w) e = h a w e
      go (Wallet.err x, w) e = tt

  -- What follows without the wallet.
  pub without_wallet :
      (m : Fund W B) (w : W)
      → Maintains (Holds w) m
      → ((b : B) (s : Tables W) → s.wallet ≡ w → P b s)
      → (s : Tables W) → s.wallet ≡ w
      → Ending P (m s)
  without_wallet m w h k s e = go (m s) (h.at s e)
    where
      go : (o : Result FundError B × Tables W) → After (Holds w) o → Ending P o
      go (ok b, s') i = k b s' i
      go (err x, s') i = tt
