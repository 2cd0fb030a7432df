-- ===== src/Fund/Loan/Tests.antt =====
-- Loans at concrete inputs.
use diddi_pay_backend.Prelude.{length, [], ◌∷◌, ◌+◌, ◌≤◌, ◌≡◌, refl, arith}
use diddi_pay_backend.Prelude.Int.{pos, negsuc, ◌+ℤ◌, ◌-ℤ◌}
use diddi_pay_backend.Prelude.Decimals.{Decimal, round_half_up}
use diddi_pay_backend.Fund.Loan.Schedule.{build_schedule_lem, CountsFrom, sum_due}
use diddi_pay_backend.Fund.Loan.Terms.{IsSound, compute_terms-IsSound}
use diddi_pay_backend.Fund.Loan.Dates.{IsDate, month_count, add_months-IsDate}
use diddi_pay_backend.Fund.Loan.{
  LoanTerms, Date, installments, add_months, days_in_month, is_leap_year, compute_terms,
  total_repayable, accepted, build_schedule,
}

abbrev rate : Decimal
rate = record { units = pos 65; places = 1 }

abbrev terms : LoanTerms
terms = record {
  principal = 200000;
  duration_months = 6;
  interest_rate_applied = rate;
  total_repayable = 213000;
  monthly_installment = 35500;
}

-- The example of the API contract: 200000 over 6 months at 6.5 percent.
contract_example : compute_terms (pos 200000) (pos 6) rate ≡ accepted terms
unfolding compute_terms total_repayable round_half_up
contract_example = refl

compute_terms-IsSound_example : IsSound (pos 200000) (pos 6) terms
compute_terms-IsSound_example =
    compute_terms-IsSound (pos 200000) (pos 6) rate terms contract_example

abbrev last_of_january : Date
last_of_january = record { year = 2024; month = 1; day = 31 }

build_schedule_lem_example :
    (length (build_schedule terms last_of_january) ≡ 6)
    × CountsFrom 1 (build_schedule terms last_of_january)
    × (sum_due (build_schedule terms last_of_january) ≡ pos 213000)
build_schedule_lem_example = build_schedule_lem terms last_of_january (omega arith)

-- In a leap year the month after January 31st ends on the 29th.
leap_day : add_months last_of_january 1 ≡ record { year = 2024; month = 2; day = 29 }
unfolding add_months days_in_month is_leap_year
leap_day = refl

january-IsDate : IsDate last_of_january
unfolding days_in_month
january-IsDate = (omega arith, omega arith, omega arith, omega arith)

add_months-IsDate_example :
    IsDate (add_months last_of_january 1)
    × (month_count (add_months last_of_january 1) ≡ month_count last_of_january + 1)
    × ((add_months last_of_january 1).day ≤ 31)
    × (31 ≤ 28 → (add_months last_of_january 1).day ≡ 31)
add_months-IsDate_example = add_months-IsDate last_of_january 1 january-IsDate

-- A small loan over many months: 60 installments of 1, but the last one is negative.
abbrev small : LoanTerms
small = record {
  principal = 30;
  duration_months = 60;
  interest_rate_applied = record { units = pos 0; places = 0 };
  total_repayable = 30;
  monthly_installment = 1;
}

small_terms :
    compute_terms (pos 30) (pos 60) (record { units = pos 0; places = 0 }) ≡ accepted small
unfolding compute_terms total_repayable round_half_up
small_terms = refl

small_last :
    installments small last_of_january 1 60 (pos 59)
    ≡ record {
      installment_no = 60;
      due_date = record { year = 2029; month = 1; day = 31 };
      amount_due = negsuc 28;
    }
      ∷ []
unfolding installments add_months days_in_month is_leap_year ◌+ℤ◌ ◌-ℤ◌
small_last = refl
