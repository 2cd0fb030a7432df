-- ===== src/Fund/Loans/Stuck.antt =====
-- The loans that payfund_app/modules/fund grants and never disburses (`decaisser`): their first installment
-- is zero, which the table refuses.
use diddi_pay_backend.Prelude.{
  ℕ, zero, suc, ◌≡◌, ◌≤◌, ◌<◌, ◌/◌, refl, false, not, String, ◌==◌, ◌is◌, arith, some,
}
use diddi_pay_backend.Prelude.Int.{pos}
use diddi_pay_backend.Prelude.Actions.{Result, ok, err, request, kept}
use diddi_pay_backend.Prelude.Actions.Yields.{
  Ending, Yields, Never, Yields-raise_if, Yields-then, Yields-Never,
}
use diddi_pay_backend.Fund.Loan.{Date, LoanTerms, installments, build_schedule}
use diddi_pay_backend.Fund.Status.{LoanStatus, loan_enum}
use diddi_pay_backend.Fund.Tables.{FundError, integrity_error, loan_already_disbursed, Loan, Tables}
use diddi_pay_backend.Fund.Ports.{WalletServicePort, ScoringPort}
use diddi_pay_backend.Fund.Repositories.Schedules.{get_loan, ajouter_echeances}
use diddi_pay_backend.Fund.Loans.{granted_terms, disburse, decaisser}

below_months : (total months : ℕ) → total < months → total / months ≡ 0
below_months total months h = grind arith

not_first : (months : ℕ) → 2 ≤ months → (1 == months) ≡ false
not_first months h = ground arith

module _ {W : Type 0} (id : ℕ) (terms : LoanTerms) (start : Date) where
  first_refused :
      (left : ℕ)
      → left ≡ terms.duration_months
      → 2 ≤ terms.duration_months
      → terms.monthly_installment ≡ 0
      → (s : Tables W)
      → ajouter_echeances id (installments terms start left 1 (pos 0)) s ≡ (err integrity_error, s)
  unfolding ajouter_echeances installments
  first_refused zero e h z s = absurd (omega arith)
  first_refused (suc left) e h z s = rw (not_first terms.duration_months h, z) refl

  ajouter_echeances-Never :
      2 ≤ terms.duration_months
      → terms.monthly_installment ≡ 0
      → Yields {S = Tables W} Never (ajouter_echeances id (build_schedule terms start))
  unfolding build_schedule
  ajouter_echeances-Never h z = record {
    at = λ s. rw (first_refused terms.duration_months refl h z s) tt;
  }

module _ {W : Type 0} (wallet : WalletServicePort W) (scoring : ScoringPort)
    (id_text : ℕ → String) where
  disburse-Never :
      (loan : Loan) (today : Date)
      → 2 ≤ loan.duration_months
      → loan.total_repayable < loan.duration_months
      → Yields Never (disburse wallet scoring id_text loan today)
  unfolding disburse
  disburse-Never loan today h k =
      search
        (
          Yields-Never {S = Tables W} {E = FundError} {B = Loan} Never,
          Yields-then {S = Tables W} {E = FundError} {B = Loan} Never,
          ajouter_echeances-Never loan.id (granted_terms loan) today h
              (below_months loan.total_repayable loan.duration_months k),
        )
        depth 12

  decaisser-Never :
      (loan_id : ℕ) (today : Date) (loan : Loan) (s : Tables W)
      → get_loan loan_id s ≡ some loan
      → 2 ≤ loan.duration_months
      → loan.total_repayable < loan.duration_months
      → Ending Never (decaisser wallet scoring id_text loan_id today s)
  unfolding decaisser
  decaisser-Never loan_id today loan s found h k = rw found (
      (Yields-raise_if Never (not (loan.status is LoanStatus.pending)) loan_already_disbursed
          (disburse wallet scoring id_text loan today) (λ waits. disburse-Never loan today h k)).at
        s)

  -- A loan of at least two months whose total is below the number of its months is never
  -- disbursed: whatever the wallet, the request raises and leaves the tables as they were.
  pub decaisser-stuck :
      (loan_id : ℕ) (today : Date) (loan : Loan) (s : Tables W)
      → get_loan loan_id s ≡ some loan
      → 2 ≤ loan.duration_months
      → loan.total_repayable < loan.duration_months
      → (e : FundError) × (request (decaisser wallet scoring id_text loan_id today) s ≡ (err e, s))
  unfolding request
  decaisser-stuck loan_id today loan s found h k =
      go (decaisser wallet scoring id_text loan_id today s)
        (decaisser-Never loan_id today loan s found h k)
    where
      go :
          (o : Result FundError Loan × Tables W)
          → Ending Never o
          → (e : FundError) × (kept s o.0 o.1 ≡ (err e, s))
      go (ok a, s') q = absurd q
      go (err e, s') q = (e, refl)
