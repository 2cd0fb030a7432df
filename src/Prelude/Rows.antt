-- ===== src/Prelude/Rows.antt =====
-- Rows with a numeric key, such as a primary key: what an update or an insertion does to a search.
use mathlib.Core.Option
use diddi_pay_backend.Prelude.{
  ℕ, ◌≤◌, ◌<◌, ◌≡◌, Bool, some, List, [], ◌∷◌, ◌++◌, arith, ◌==◌, if◌then◌else◌, find_row,
  update_rows,
}

module _ {ℓ} {A : Type ℓ} (key : A → ℕ) where
  abbrev pub has_key : ℕ → A → Bool
  has_key k a = key a == k

  -- Every key lies below `n`, the next one to be given.
  abbrev pub AllBelow : ℕ → List A → Type 0
  AllBelow n [] = Unit
  AllBelow n (a ∷ rows) = (key a < n) × AllBelow n rows

  pub AllBelow-mono : (m n : ℕ) (rows : List A) → m ≤ n → AllBelow m rows → AllBelow n rows
  AllBelow-mono m n [] h b = tt
  AllBelow-mono m n (a ∷ rows) h b = (omega arith, AllBelow-mono m n rows h b.1)

  pub AllBelow-append :
      (n : ℕ) (rows : List A) (a : A) → AllBelow n rows → key a < n → AllBelow n (rows ++ a ∷ [])
  AllBelow-append n [] a b h = (h, tt)
  AllBelow-append n (x ∷ rows) a b h = (b.0, AllBelow-append n rows a b.1 h)

  -- An update at a key that only the last row has changes that row alone.
  pub update_rows-append_last :
      (f : A → A) (n : ℕ) (rows : List A) (a : A)
      → AllBelow n rows
      → key a ≡ n
      → update_rows (has_key n) f (rows ++ a ∷ []) ≡ rows ++ f a ∷ []
  update_rows-append_last f n [] a b h = ground arith
  update_rows-append_last f n (x ∷ rows) a b h =
      ground (arith, update_rows-append_last f n rows a b.1 h)

  pub find_row-append_last :
      (n : ℕ) (rows : List A) (a : A)
      → AllBelow n rows
      → key a ≡ n
      → find_row (has_key n) (rows ++ a ∷ []) ≡ some a
  find_row-append_last n [] a b h = ground arith
  find_row-append_last n (x ∷ rows) a b h = ground (arith, find_row-append_last n rows a b.1 h)

  -- A search after an update that keeps the keys.
  pub find_row-update_rows :
      (f : A → A) (j k : ℕ) (rows : List A)
      → ((a : A) → key (f a) ≡ key a)
      → find_row (has_key j) (update_rows (has_key k) f rows)
        ≡ (if j == k then Option.map f (find_row (has_key j) rows) else find_row (has_key j) rows)
  find_row-update_rows f j k [] h = ground arith
  find_row-update_rows f j k (x ∷ rows) h = ground (arith, h x, find_row-update_rows f j k rows h)
