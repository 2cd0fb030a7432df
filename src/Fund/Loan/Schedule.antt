-- ===== src/Fund/Loan/Schedule.antt =====
-- What the schedule of payfund_app/modules/fund/domain/loan.py adds up to.
use diddi_pay_backend.Prelude.{
  ℕ, zero, suc, ◌+◌, ◌<◌, ◌≡◌, refl, ap, sym, ◌∙◌, true, false, List, [], ◌∷◌, arith, ◌==◌, length,
}
use diddi_pay_backend.Prelude.Int.{ℤ, pos, ◌+ℤ◌, int_laws, +ℤ_assoc}
use diddi_pay_backend.Fund.Loan.{LoanTerms, Date, Installment, installments, build_schedule}

abbrev pub sum_due : List Installment → ℤ
sum_due [] = pos 0
sum_due (row ∷ rows) = row.amount_due +ℤ sum_due rows

-- The numbers `from`, `from` + 1, and so on, each once and in order.
abbrev pub CountsFrom : ℕ → List Installment → Type 0
CountsFrom from [] = Unit
CountsFrom from (row ∷ rows) = (row.installment_no ≡ from) × CountsFrom (from + 1) rows

zero_plus : (a : ℤ) → pos 0 +ℤ a ≡ a
zero_plus a = omega int_laws

module _ (terms : LoanTerms) (start : Date) where
  length-installments :
      (left number : ℕ) (paid : ℤ) → length (installments terms start left number paid) ≡ left
  unfolding installments
  length-installments zero number paid = refl
  length-installments (suc left) number paid = ap suc (length-installments left (number + 1) _)

  installments-CountsFrom :
      (left number : ℕ) (paid : ℤ) → CountsFrom number (installments terms start left number paid)
  unfolding installments
  installments-CountsFrom zero number paid = tt
  installments-CountsFrom (suc left) number paid =
      (refl, installments-CountsFrom left (number + 1) _)

  last : (number : ℕ) → number ≡ terms.duration_months → (number == terms.duration_months) ≡ true
  last number h = ground arith

  not_last :
      (number : ℕ) → number < terms.duration_months → (number == terms.duration_months) ≡ false
  not_last number h = ground arith

  -- The last installment takes what the others leave.
  sum_due-installments :
      (left number : ℕ) (paid : ℤ)
      → number + left ≡ terms.duration_months
      → paid +ℤ sum_due (installments terms start (suc left) number paid)
        ≡ pos terms.total_repayable
  unfolding installments
  sum_due-installments zero number paid h = rw (last number (omega arith)) (omega int_laws)
  sum_due-installments (suc left) number paid h = rw (not_last number (omega arith)) (
      sym (+ℤ_assoc paid (pos terms.monthly_installment) _)
      ∙ sum_due-installments left (number + 1) (paid +ℤ pos terms.monthly_installment)
          (omega arith))

  sum_due-all :
      (months : ℕ)
      → 0 < months
      → months ≡ terms.duration_months
      → sum_due (installments terms start months 1 (pos 0)) ≡ pos terms.total_repayable
  sum_due-all zero h e = absurd (omega arith)
  sum_due-all (suc left) h e = sym (zero_plus _) ∙ sum_due-installments left 1 (pos 0) (omega arith)

-- The schedule of a loan of at least one month has an installment for each month, numbered from
-- one on, and its amounts add up to exactly what the terms say is to be repaid.
pub build_schedule_lem :
    (terms : LoanTerms) (start : Date)
    → 0 < terms.duration_months
    → (length (build_schedule terms start) ≡ terms.duration_months)
      × CountsFrom 1 (build_schedule terms start)
      × (sum_due (build_schedule terms start) ≡ pos terms.total_repayable)
unfolding build_schedule
build_schedule_lem terms start h = (
  length-installments terms start terms.duration_months 1 (pos 0),
  installments-CountsFrom terms start terms.duration_months 1 (pos 0),
  sum_due-all terms start terms.duration_months h refl,
)
