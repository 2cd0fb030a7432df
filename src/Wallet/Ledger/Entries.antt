-- ===== src/Wallet/Ledger/Entries.antt =====
-- What the writes of payfund_app/modules/wallet/application/ledger.py add to the entries.
use diddi_pay_backend.Prelude.{
  ℕ, ◌≡◌, refl, ap, sym, ◌∙◌, Bool, true, false, String, Option, List, [], ◌∷◌, ◌++◌, map,
  Bool-cases, inl, inr, arith, ◌==◌, ◌is◌, is_iff, if◌then◌else◌,
}
use diddi_pay_backend.Prelude.Int.{pos_part, neg_part, ℤ, pos, ◌+ℤ◌, +ℤ_assoc, int_laws}
use diddi_pay_backend.Wallet.Errors.{Result, ok, err}
use diddi_pay_backend.Wallet.Money.{Currency, currency_enum}
use diddi_pay_backend.Wallet.Entities.{PostingLine, Direction, credit, debit, signed, has_currency}
use diddi_pay_backend.Wallet.Entities.Balanced.{line_sum, IsBalanced, zero_plus}
use diddi_pay_backend.Wallet.Store.{
  Store, LedgerEntry, entry_of, net, get_account, add_entry, is_known, is_of_account,
}
use diddi_pay_backend.Wallet.Ledger.{add_entries, opposite, inverse}

pub net-append :
    (p : LedgerEntry → Bool) (xs ys : List LedgerEntry) → net p (xs ++ ys) ≡ net p xs +ℤ net p ys
net-append p [] ys = sym (zero_plus _)
net-append p (x ∷ xs) ys = elim (Bool-cases (p x)) [
  | inl counted ↦
      rw (counted, net-append p xs ys)
        (sym (+ℤ_assoc (signed x.direction x.amount) (net p xs) (net p ys)))
  | inr other ↦ rw other (net-append p xs ys)
]

-- The same store with other entries.
abbrev pub with_entries : Store → List LedgerEntry → Store
with_entries s entries = record s { entries = entries }

abbrev pub Adds : ℕ → List PostingLine → Store → Result (Unit {0}) × Store → Type 0
Adds tx lines s (ok u, s') = s' ≡ with_entries s (s.entries ++ map (entry_of tx) lines)
Adds tx lines s (err e, s') = Unit

append_nil : {A : Type 0} (xs : List A) → xs ++ [] ≡ xs
append_nil [] = refl
append_nil (x ∷ xs) = ap (λ ys. x ∷ ys) (append_nil xs)

append_one : {A : Type 0} (xs : List A) (y : A) (ys : List A) → (xs ++ y ∷ []) ++ ys ≡ xs ++ y ∷ ys
append_one [] y ys = refl
append_one (x ∷ xs) y ys = ap (λ zs. x ∷ zs) (append_one xs y ys)

-- A loop that does not raise has added an entry for each line, and nothing else.
pub add_entries-Adds :
    (tx : ℕ) (lines : List PostingLine) (s : Store) → Adds tx lines s (add_entries tx lines s)
unfolding add_entries add_entry
add_entries-Adds tx [] s = ap (with_entries s) (sym (append_nil s.entries))
add_entries-Adds tx (line ∷ lines) s =
    elim (Bool-cases (is_known (get_account line.account_id s))) [
      | inl known ↦
          rw known (one_more (add_entries tx lines after) (add_entries-Adds tx lines after))
      | inr unknown ↦ rw unknown tt
    ]
  where
    after : Store
    after = with_entries s (s.entries ++ entry_of tx line ∷ [])

    one_more : (o : Result (Unit {0}) × Store) → Adds tx lines after o → Adds tx (line ∷ lines) s o
    one_more (ok u, s') h =
        h ∙ ap (with_entries s) (append_one s.entries (entry_of tx line) (map (entry_of tx) lines))
    one_more (err e, s') h = tt

-- A test that reads only the transaction and the currency of an entry.
abbrev pub by_header : (ℕ → Currency → Bool) → LedgerEntry → Bool
by_header p entry = p entry.transaction_id entry.currency

net-lines :
    (p : ℕ → Currency → Bool) (tx : ℕ) (c : Currency) (lines : List PostingLine)
    → has_currency c lines ≡ true
    → net (by_header p) (map (entry_of tx) lines) ≡ (if p tx c then line_sum lines else pos 0)
net-lines p tx c [] h = ground arith
net-lines p tx c (line ∷ lines) h =
    rw ((is_iff line.money.currency c).0 (first h), net-lines p tx c lines (others h))
      (joined (p tx c))
  where
    first : has_currency c (line ∷ lines) ≡ true → (line.money.currency is c) ≡ true
    first k = ground arith

    others : has_currency c (line ∷ lines) ≡ true → has_currency c lines ≡ true
    others k = ground arith

    joined :
        (b : Bool)
        → (if b
            then signed line.direction line.money.amount +ℤ (if b then line_sum lines else pos 0)
            else (if b then line_sum lines else pos 0))
          ≡ (if b then line_sum (line ∷ lines) else pos 0)
    joined true = refl
    joined false = refl

-- The entries of a balanced transaction sum to zero, whichever transactions and currencies are counted.
pub net-balanced :
    (p : ℕ → Currency → Bool) (tx : ℕ) (lines : List PostingLine)
    → IsBalanced lines
    → net (by_header p) (map (entry_of tx) lines) ≡ pos 0
net-balanced p tx [] b = refl
net-balanced p tx (line ∷ lines) b =
    rw (net-lines p tx line.money.currency lines b.one_currency) (whole (p tx line.money.currency))
  where
    whole :
        (q : Bool)
        → (if q
            then signed line.direction line.money.amount +ℤ (if q then line_sum lines else pos 0)
            else (if q then line_sum lines else pos 0))
          ≡ pos 0
    whole true = b.sums_to_zero
    whole false = refl

cancel :
    (d : Direction) (a : ℕ) (m n : ℤ)
    → m +ℤ n ≡ pos 0
    → signed (opposite d) a +ℤ m +ℤ (signed d a +ℤ n) ≡ pos 0
cancel credit a m n h = omega (int_laws, ap pos_part h, ap neg_part h)
cancel debit a m n h = omega (int_laws, ap pos_part h, ap neg_part h)

-- The entries that undo others change a balance by the opposite amount.
pub net-inverse :
    (k tx : ℕ) (reference : Option String) (entries : List LedgerEntry)
    → net (is_of_account k) (map (entry_of tx) (map (inverse reference) entries))
        +ℤ net (is_of_account k) entries
      ≡ pos 0
net-inverse k tx reference [] = zero_plus (pos 0)
net-inverse k tx reference (x ∷ entries) = elim (Bool-cases (x.account_id == k)) [
  | inl same ↦ rw same (cancel x.direction x.amount _ _ (net-inverse k tx reference entries))
  | inr other ↦ rw other (net-inverse k tx reference entries)
]
