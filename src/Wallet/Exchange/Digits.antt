-- ===== src/Wallet/Exchange/Digits.antt =====
-- The digits of an inverse exchange rate of payfund_app/modules/wallet/infra/exchange_rates.py.
use diddi_pay_backend.Prelude.{
  ℕ, zero, suc, ◌+◌, ◌*◌, ◌^◌, ◌≤◌, ◌<◌, ◌≡◌, ◌⊎◌, subst, sym, Bool-cases, inl, inr, arith, leb,
}
use native.Mathlib.Omega.{pow_step}
use diddi_pay_backend.Wallet.Exchange.{quotient_places}

-- The least number of decimals from `e` on with 28 significant digits.
abbrev pub IsLeast : ℕ → ℕ → ℕ → ℕ → Type 0
IsLeast units places e r =
    (10 ^ 27 * units ≤ 10 ^ (places + r))
    × ((j : ℕ) → e ≤ j → j < r → 10 ^ (places + j) < 10 ^ 27 * units)

from_here : (e j : ℕ) → e ≤ j → (e + 1 ≤ j) ⊎ (j ≡ e)
from_here e j h = elim (Bool-cases (leb (e + 1) j)) [
  | inl later ↦ inl (ground arith)
  | inr here ↦ inr (ground arith)
]

quotient_places-IsLeast_from :
    (fuel units places e : ℕ)
    → 10 ^ 27 * units ≤ 10 ^ (places + (e + fuel))
    → IsLeast units places e (quotient_places fuel units places e)
unfolding quotient_places
quotient_places-IsLeast_from zero units places e h = (
  subst (λ k. 10 ^ 27 * units ≤ 10 ^ (places + k)) (omega arith) h,
  λ j a b. absurd (omega arith),
)
quotient_places-IsLeast_from (suc fuel) units places e h =
    elim (Bool-cases (leb (10 ^ 27 * units) (10 ^ (places + e)))) [
      | inl enough ↦ rw enough (ground arith, λ j a b. absurd (omega arith))
      | inr short ↦
          let (enough, least) : IsLeast units places (e + 1)
              (quotient_places fuel units places (e + 1)) =
            quotient_places-IsLeast_from fuel units places (e + 1)
              (subst (λ k. 10 ^ 27 * units ≤ 10 ^ (places + k)) (omega arith) h) in
          rw short (
            enough,
            λ j a b. elim (from_here e j a) [
              | inl later ↦ least j later b
              | inr here ↦
                  subst (λ k. 10 ^ (places + k) < 10 ^ 27 * units) (sym here) (ground arith)
            ],
          )
    ]

within_fuel : (places : ℕ) → 10 ^ 64 ≤ 10 ^ (places + 64)
within_fuel zero = omega arith
within_fuel (suc places) =
    let more : 10 ^ 64 ≤ 10 ^ suc (places + 64) =
      omega (arith, pow_step 10 (places + 64), within_fuel places) in
    subst (λ k. 10 ^ 64 ≤ 10 ^ k) (omega arith) more

-- The 64 steps suffice for every rate of at most 10^37 units, where the table's have fewer than
-- 10^18: the number of decimals that is found gives the inverse 28 significant digits, and no
-- smaller one does.
pub quotient_places-IsLeast :
    (units places : ℕ)
    → units ≤ 10 ^ 37
    → IsLeast units places 0 (quotient_places 64 units places 0)
quotient_places-IsLeast units places h =
    quotient_places-IsLeast_from 64 units places 0 (omega (arith, within_fuel places))
