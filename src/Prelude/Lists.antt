-- ===== src/Prelude/Lists.antt =====
-- Lists measured by native numbers, and the tables of rows that the repositories query.
use Prim.Native.Nat.{ℕ, zero, suc, ◌+◌, ◌≤◌}
use mathlib.Core.Path.{◌≡◌, refl, ap}
use mathlib.Core.Bool.{Bool, true, false, ◌||◌}
use mathlib.Core.List.{List, [], ◌∷◌, ◌++◌}
use mathlib.Core.Option.{Option, none, some}
use native.Mathlib.Omega.{arith}
use diddi_pay_backend.Prelude.Tests.{leb, if◌then◌else◌}

module _ {ℓ} {A : Type ℓ} where
  abbrev pub length : List A → ℕ
  length [] = 0
  length (x ∷ xs) = suc (length xs)

  abbrev pub take : ℕ → List A → List A
  take zero xs = []
  take (suc n) [] = []
  take (suc n) (x ∷ xs) = x ∷ take n xs

  -- The first row that passes a test, as `session.scalar(select(...).where(...))`.
  abbrev pub find_row : (A → Bool) → List A → Option A
  find_row p [] = none
  find_row p (x ∷ xs) = if p x then some x else find_row p xs

  -- The rows that pass a test, in their order.
  abbrev pub select_rows : (A → Bool) → List A → List A
  select_rows p [] = []
  select_rows p (x ∷ xs) = let rest = select_rows p xs in if p x then x ∷ rest else rest

  -- Writes to the rows that pass a test.
  abbrev pub update_rows : (A → Bool) → (A → A) → List A → List A
  update_rows p f [] = []
  update_rows p f (x ∷ xs) = (if p x then f x else x) ∷ update_rows p f xs

  -- Whether some element passes a test.
  abbrev pub any_row : (A → Bool) → List A → Bool
  any_row p [] = false
  any_row p (x ∷ xs) = p x || any_row p xs

  abbrev pub get_last? : List A → Option A
  get_last? [] = none
  get_last? (x ∷ []) = some x
  get_last? (x ∷ y ∷ ys) = get_last? (y ∷ ys)

  pub length-append : (xs ys : List A) → length (xs ++ ys) ≡ length xs + length ys
  length-append [] ys = omega arith
  length-append (x ∷ xs) ys = omega (arith, length-append xs ys)

  pub length-update_rows :
      (p : A → Bool) (f : A → A) (xs : List A) → length (update_rows p f xs) ≡ length xs
  length-update_rows p f [] = refl
  length-update_rows p f (x ∷ xs) = ap suc (length-update_rows p f xs)

  pub length-take-le : (n : ℕ) (xs : List A) → length (take n xs) ≤ n
  length-take-le zero xs = omega arith
  length-take-le (suc n) [] = omega arith
  length-take-le (suc n) (x ∷ xs) = omega (arith, length-take-le n xs)

  -- What a search finds passes the test.
  pub find_row-passes : (p : A → Bool) (xs : List A) (a : A) → find_row p xs ≡ some a → p a ≡ true
  find_row-passes p [] a h = ground arith
  find_row-passes p (x ∷ xs) a h = ground (arith, find_row-passes p xs a)

-- A sum over rows.
abbrev pub sum_rows {ℓ} : {A : Type ℓ} → (A → ℕ) → List A → ℕ
sum_rows w [] = 0
sum_rows w (x ∷ xs) = w x + sum_rows w xs

pub sum_rows-append {ℓ} :
    {A : Type ℓ} (w : A → ℕ) (xs ys : List A)
    → sum_rows w (xs ++ ys) ≡ sum_rows w xs + sum_rows w ys
sum_rows-append w [] ys = omega arith
sum_rows-append w (x ∷ xs) ys = omega (arith, sum_rows-append w xs ys)

-- A stable sort, as `order_by`: a row stands behind the earlier ones of its key.
module _ {ℓ} {A : Type ℓ} (key : A → ℕ) where
  unfoldable pub insert_by : A → List A → List A
  insert_by a [] = a ∷ []
  insert_by a (x ∷ xs) =
      let rest = insert_by a xs in if leb (key a) (key x) then a ∷ x ∷ xs else x ∷ rest

  unfoldable pub sort_by : List A → List A
  unfolding insert_by
  sort_by [] = []
  sort_by (x ∷ xs) = insert_by x (sort_by xs)
