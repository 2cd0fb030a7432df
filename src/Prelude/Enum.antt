-- ===== src/Prelude/Enum.antt =====
-- Python's `StrEnum`: a finite type whose members have a text each, compared and listed in sets.
use Prim.Native.Nat.{ℕ}
use Prim.Native.String.{String}
use mathlib.Core.Path.{◌≡◌}
use mathlib.Core.Logic.{◌↔◌}
use mathlib.Core.Bool.{Bool, true, false, ◌||◌}
use mathlib.Core.List.{List, [], ◌∷◌}
use native.Mathlib.Omega.{arith}
use diddi_pay_backend.Prelude.Tests.{◌==◌}

pub record StrEnum (A : Type 0) : Type 0 where
  -- The place of a member in its declaration.
  pub rank : A → ℕ
  -- The text of a member, `str(status)`.
  pub value : A → String
  pub rank_injective : (a b : A) → rank a ≡ rank b → a ≡ b

module _ {A : Type 0} ⦃e : StrEnum A⦄ where
  infix 50 ◌is◌
  abbrev pub ◌is◌ : A → A → Bool
  a is b = e.rank a == e.rank b

  -- `a in {...}`
  infix 50 ◌is_in◌
  abbrev pub ◌is_in◌ : A → List A → Bool
  a is_in [] = false
  a is_in (b ∷ bs) = a is b || a is_in bs

  abbrev pub to_text : A → String
  to_text a = e.value a

  pub is_iff : (a b : A) → ((a is b) ≡ true) ↔ (a ≡ b)
  is_iff a b = ((λ h. e.rank_injective a b (ground arith)), λ h. ground arith)
