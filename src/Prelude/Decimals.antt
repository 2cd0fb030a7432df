-- ===== src/Prelude/Decimals.antt =====
-- Python's `Decimal` where it is not negative, and its rounding to an integer.
use native.Mathlib.Nat.{mul-le-mul_left, mul-pos, one-le-pow, mod-lt, div-add-mod}
use diddi_pay_backend.Prelude.{
  ℕ, ◌+◌, ◌*◌, ◌/◌, ◌^◌, ◌<◌, ◌≤◌, arith, Bool-cases, inl, inr, ltb, ltb→lt,
}
use diddi_pay_backend.Prelude.Int.{ℤ}

-- A `Decimal`: `units` / 10 ^ `places`.
pub record Decimal : Type 0 where
  pub units : ℤ
  pub places : ℕ

-- `(num / den).quantize(Decimal("1"), rounding=ROUND_HALF_UP)`, for numbers that are not negative
unfoldable pub round_half_up : ℕ → ℕ → ℕ
round_half_up num den = (2 * num + den) / (2 * den)

-- The rounded quotient is off by at most one half, and a half is rounded up.
pub round_half_up_bounds :
    (num den : ℕ)
    → 0 < den
    → (2 * (den * round_half_up num den) ≤ 2 * num + den)
      × (2 * num < 2 * (den * round_half_up num den) + den)
unfolding round_half_up
round_half_up_bounds num den h = omega (
  arith,
  div-add-mod (2 * num + den) (2 * den),
  mod-lt (2 * num + den) {m = 2 * den} (omega arith),
)

pub round_half_up-le :
    (principal k units : ℕ) → 0 < k → principal ≤ round_half_up (principal * (k + units)) k
round_half_up-le principal k units h =
    elim (Bool-cases (ltb (round_half_up (principal * (k + units)) k) principal)) [
      | inl low ↦ absurd (
          omega (
            arith,
            round_half_up_bounds (principal * (k + units)) k h,
            mul-le-mul_left k (ltb→lt _ _ low),
          ))
      | inr ge ↦ ground arith
    ]

pub scale_positive : (places : ℕ) → 0 < 100 * 10 ^ places
scale_positive places = mul-pos (omega arith) (one-le-pow places 10 (omega arith))
