-- ===== src/Fund/Loan/Dates.antt =====
-- The due dates of payfund_app/modules/fund/domain/loan.py.
use diddi_pay_backend.Prelude.{ℕ, ◌+◌, ◌-◌, ◌*◌, ◌/◌, ◌%◌, ◌≤◌, ◌≡◌, arith}
use diddi_pay_backend.Fund.Loan.{Date, add_months, days_in_month}

abbrev pub IsDate : Date → Type 0
IsDate d = (1 ≤ d.month) × (d.month ≤ 12) × (1 ≤ d.day) × (d.day ≤ days_in_month d.year d.month)

-- The months since the year 0.
abbrev pub month_count : Date → ℕ
month_count d = 12 * d.year + d.month

days_in_month_bounds :
    (year month : ℕ) → (28 ≤ days_in_month year month) × (days_in_month year month ≤ 31)
unfolding days_in_month
days_in_month_bounds year month = ground arith

-- From a date of the calendar, an added month count gives a date of the calendar that lies exactly
-- so many months later; its day is the day it started from, or an earlier one, and the same one up
-- to the 28th.
pub add_months-IsDate :
    (origin : Date) (months : ℕ)
    → IsDate origin
    → IsDate (add_months origin months)
      × (month_count (add_months origin months) ≡ month_count origin + months)
      × ((add_months origin months).day ≤ origin.day)
      × (origin.day ≤ 28 → (add_months origin months).day ≡ origin.day)
unfolding add_months
add_months-IsDate origin months h = ground (
  arith,
  days_in_month_bounds (origin.year + (origin.month - 1 + months) / 12)
      ((origin.month - 1 + months) % 12 + 1),
)
