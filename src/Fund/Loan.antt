-- ===== src/Fund/Loan.antt =====
-- payfund_app/modules/fund/domain/loan.py: the terms and the schedule of a loan.
pub mod Schedule
pub mod Dates
pub mod Terms
pub mod Tests
use diddi_pay_backend.Prelude.{
  ℕ, zero, suc, ◌+◌, ◌-◌, ◌*◌, ◌/◌, ◌%◌, ◌^◌, min, Bool, not, ◌&&◌, ◌||◌, List, [], ◌∷◌,
  if◌then◌else◌, ltb, ◌==◌,
}
use diddi_pay_backend.Prelude.Decimals.{Decimal, round_half_up}
use diddi_pay_backend.Prelude.Int.{ℤ, pos, negsuc, ◌+ℤ◌, ◌-ℤ◌, ltb_ℤ}

abbrev pub max_duration_months : ℕ
max_duration_months = 60

pub record LoanTerms : Type 0 where
  pub principal : ℕ
  pub duration_months : ℕ
  pub interest_rate_applied : Decimal
  pub total_repayable : ℕ
  pub monthly_installment : ℕ

pub data LoanError : Type 0 where
  invalid_principal invalid_duration invalid_rate : LoanError

pub data LoanResult (A : Type 0) : Type 0 where
  accepted : A → LoanResult A
  refused : LoanError → LoanResult A

-- `Decimal(principal) * (Decimal(1) + taux / Decimal(100))`, rounded
unfoldable pub total_repayable : ℕ → ℕ → ℕ → ℕ
unfolding round_half_up
total_repayable principal units places =
    round_half_up (principal * (100 * 10 ^ places + units)) (100 * 10 ^ places)

abbrev terms_at : ℕ → ℕ → Decimal → ℕ → LoanTerms
terms_at principal months rate units = record {
  principal = principal;
  duration_months = months;
  interest_rate_applied = rate;
  total_repayable = total_repayable principal units rate.places;
  monthly_installment = round_half_up (total_repayable principal units rate.places) months;
}

abbrev with_rate : ℕ → ℕ → Decimal → ℤ → LoanResult LoanTerms
with_rate principal months rate (pos units) = accepted (terms_at principal months rate units)
with_rate principal months rate (negsuc _) = refused invalid_rate

abbrev with_duration : ℕ → ℤ → Decimal → LoanResult LoanTerms
with_duration principal (negsuc _) rate = refused invalid_duration
with_duration principal (pos months) rate =
    if months == 0 || ltb max_duration_months months
    then refused invalid_duration
    else with_rate principal months rate rate.units

-- `calculer_conditions`
unfoldable pub compute_terms : ℤ → ℤ → Decimal → LoanResult LoanTerms
compute_terms (negsuc _) months rate = refused invalid_principal
compute_terms (pos principal) months rate =
    if principal == 0 then refused invalid_principal else with_duration principal months rate

pub record Date : Type 0 where
  pub year : ℕ
  pub month : ℕ
  pub day : ℕ

-- `_bissextile`
unfoldable pub is_leap_year : ℕ → Bool
is_leap_year year = year % 4 == 0 && (not (year % 100 == 0) || year % 400 == 0)

-- `jours_du_mois[month - 1]`, where a year has 12 months
unfoldable pub days_in_month : ℕ → ℕ → ℕ
unfolding is_leap_year
days_in_month year month =
    if month == 2
    then (if is_leap_year year then 29 else 28)
    else if month == 4 || month == 6 || month == 9 || month == 11
    then 30
    else 31

-- `_ajouter_mois`
unfoldable pub add_months : Date → ℕ → Date
unfolding days_in_month
add_months origin months =
    let total = origin.month - 1 + months in
    let year = origin.year + total / 12 in
    let month = total % 12 + 1 in
    record { year = year; month = month; day = min origin.day (days_in_month year month) }

pub record Installment : Type 0 where
  pub installment_no : ℕ
  pub due_date : Date
  pub amount_due : ℤ

-- The loop of `construire_echeancier` over the numbers that are left, from `number` on.
unfoldable pub installments : LoanTerms → Date → ℕ → ℕ → ℤ → List Installment
installments terms start zero number paid = []
installments terms start (suc left) number paid =
    let amount =
      (if number == terms.duration_months
        then pos terms.total_repayable -ℤ paid
        else pos terms.monthly_installment) in
    record { installment_no = number; due_date = add_months start number; amount_due = amount }
    ∷ installments terms start left (number + 1) (paid +ℤ amount)

-- `construire_echeancier`
unfoldable pub build_schedule : LoanTerms → Date → List Installment
unfolding installments
build_schedule terms start = installments terms start terms.duration_months 1 (pos 0)
