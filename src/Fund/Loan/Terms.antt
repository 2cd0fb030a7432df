-- ===== src/Fund/Loan/Terms.antt =====
-- The rounding and the terms of payfund_app/modules/fund/domain/loan.py.
use diddi_pay_backend.Prelude.Decimals.{
  Decimal, round_half_up_bounds, round_half_up-le, scale_positive,
}
use diddi_pay_backend.Prelude.{◌+◌, ◌*◌, ◌^◌, ◌<◌, ◌≤◌, ◌≡◌, arith}
use diddi_pay_backend.Prelude.Int.{ℤ, pos, pos_part}
use diddi_pay_backend.Fund.Loan.{
  LoanTerms, accepted, total_repayable, compute_terms, max_duration_months,
}

-- What accepted terms are: the principal is positive, the loan lasts from 1 to 60 months, no less than
-- the principal is to be repaid, and the monthly installment is the rounded share of one month.
abbrev pub IsSound : ℤ → ℤ → LoanTerms → Type 0
IsSound principal months t =
    (pos t.principal ≡ principal)
    × (0 < t.principal)
    × (pos t.duration_months ≡ months)
    × (1 ≤ t.duration_months)
    × (t.duration_months ≤ max_duration_months)
    × (t.principal ≤ t.total_repayable)
    × (2 * (t.duration_months * t.monthly_installment) ≤ 2 * t.total_repayable + t.duration_months)
    × (2 * t.total_repayable < 2 * (t.duration_months * t.monthly_installment) + t.duration_months)

-- What accepted terms are: the principal is the one asked for and positive, the loan lasts the
-- months asked for, from 1 to 60, no less than the principal is to be repaid, and the monthly
-- installment is one month's share of it, off by at most one half.
pub compute_terms-IsSound :
    (principal months : ℤ) (rate : Decimal) (t : LoanTerms)
    → compute_terms principal months rate ≡ accepted t
    → IsSound principal months t
unfolding compute_terms total_repayable
compute_terms-IsSound principal months rate t h = ground (
  arith,
  round_half_up-le (pos_part principal) (100 * 10 ^ rate.places) (pos_part rate.units)
      (scale_positive rate.places),
  round_half_up_bounds t.total_repayable (pos_part months),
)
