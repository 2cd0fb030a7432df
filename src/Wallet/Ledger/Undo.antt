-- ===== src/Wallet/Ledger/Undo.antt =====
-- A payment and its reversal, and a payment that is sent again
-- (payfund_app/modules/wallet/application/ledger.py).
use diddi_pay_backend.Prelude.{
  ℕ, ◌≡◌, refl, ap, sym, ◌∙◌, Bool, true, false, String, eq_iff, Option, some, none, List, [], ◌∷◌,
  ◌++◌, map, arith, Bool-cases, inl, inr, find_row, select_rows, subst, ==_iff,
}
use diddi_pay_backend.Prelude.Int.{ℤ, pos, ◌+ℤ◌, int_laws, pos_part, neg_part, +ℤ_assoc}
use diddi_pay_backend.Wallet.Errors.{ok}
use diddi_pay_backend.Wallet.Entities.{PostingLine, TransactionType, TransactionStatus}
use diddi_pay_backend.Wallet.Store.{
  Store, LedgerEntry, Transaction, TransactionKey, key_eq, caller_key, reversal_key, entry_of, net,
  is_of_account, is_of_transaction, entries_of, balance, get_by_idempotency_key,
}
use diddi_pay_backend.Wallet.Ledger.{post, reverse_transaction}
use diddi_pay_backend.Wallet.Ledger.Entries.{net-append, net-inverse}
use diddi_pay_backend.Wallet.Ledger.Post.{Posts, post-Posts}
use diddi_pay_backend.Wallet.Ledger.Reversal.{
  Reverses, reverse_transaction-Reverses, reversal_lines,
}

key_eq_self : (key : TransactionKey) → key_eq key key ≡ true
key_eq_self (caller_key s) = (eq_iff s s).1 refl
key_eq_self (reversal_key n) = ground arith

find_row-last :
    (p : Transaction → Bool) (rows : List Transaction) (t : Transaction)
    → find_row p rows ≡ none
    → p t ≡ true
    → find_row p (rows ++ t ∷ []) ≡ some t
find_row-last p [] t h k = ground arith
find_row-last p (x ∷ rows) t h k = ground (arith, find_row-last p rows t)

known_after :
    (lines : List PostingLine) (key : TransactionKey) (s s' : Store) (t : Transaction)
    (known : Bool)
    → Posts lines key s (ok (t, known), s')
    → get_by_idempotency_key key s' ≡ some t
unfolding get_by_idempotency_key
known_after lines key s s' t false (b, absent, e, entries, same, more) =
    rw more (find_row-last _ s.transactions t absent (rw e (key_eq_self key)))
known_after lines key s s' t true (e, same) = rw same e

-- A payment that was written, sent again under its key with any lines: the same transaction comes
-- back, marked as known, and nothing is written.
pub post-post :
    (type type' : TransactionType) (lines lines' : List PostingLine) (key : TransactionKey)
    (origin origin' : Option String) (status status' : TransactionStatus) (s s' : Store)
    (t : Transaction) (known : Bool)
    → post type lines key origin status s ≡ (ok (t, known), s')
    → post type' lines' key origin' status' s' ≡ (ok (t, true), s')
unfolding post
post-post type type' lines lines' key origin origin' status status' s s' t known h =
    rw
      (known_after lines key s s' t known
        (subst (Posts lines key s) h (post-Posts type lines key origin status s)))
      refl

-- What the entries of one transaction add to the balance of an account.
abbrev pub share : ℕ → ℕ → Store → ℤ
share k tx s = net (is_of_account k) (entries_of tx s)

minus : (a b c : ℤ) → b +ℤ c ≡ pos 0 → a +ℤ b +ℤ c ≡ a
minus a b c h = +ℤ_assoc a b c ∙ ap (λ z. a +ℤ z) h ∙ omega int_laws

module _ (t r : Transaction) (reference : String) (s s' : Store)
    (h : reverse_transaction t reference s ≡ (ok r, s')) where
  -- A reversal that is written takes from the balance of every account exactly what the entries of its
  -- transaction add to it.
  pub reverse_transaction-takes :
      (k : ℕ) → (balance k s').amount +ℤ share k t.id s ≡ (balance k s).amount
  unfolding balance
  reverse_transaction-takes k =
      taken (subst (Reverses t reference s) h (reverse_transaction-Reverses t reference s))
    where
      taken :
          Reverses t reference s (ok r, s')
          → net (is_of_account k) s'.entries +ℤ share k t.id s ≡ net (is_of_account k) s.entries
      taken (b, e, same, more) =
          ap (λ rows. net (is_of_account k) rows +ℤ share k t.id s) e
          ∙ ap (λ z. z +ℤ share k t.id s)
              (net-append (is_of_account k) s.entries
                (map (entry_of r.id) (reversal_lines t.id reference s)))
          ∙ minus _ _ _ (net-inverse k r.id (some reference) (entries_of t.id s))

select_rows-append :
    (p : LedgerEntry → Bool) (xs ys : List LedgerEntry)
    → select_rows p (xs ++ ys) ≡ select_rows p xs ++ select_rows p ys
select_rows-append p [] ys = refl
select_rows-append p (x ∷ xs) ys = elim (Bool-cases (p x)) [
  | inl kept ↦ rw kept (ap (λ zs. x ∷ zs) (select_rows-append p xs ys))
  | inr dropped ↦ rw dropped (select_rows-append p xs ys)
]

own_entries :
    (tx : ℕ) (lines : List PostingLine)
    → select_rows (is_of_transaction tx) (map (entry_of tx) lines) ≡ map (entry_of tx) lines
own_entries tx [] = refl
own_entries tx (line ∷ lines) =
    rw ((==_iff tx tx).1 refl) (ap (λ zs. entry_of tx line ∷ zs) (own_entries tx lines))

cancel_right : (a b c : ℤ) → a +ℤ c ≡ b +ℤ c → a ≡ b
cancel_right a b c h = omega (int_laws, ap pos_part h, ap neg_part h)

-- A payment and then its reversal leave every balance as it was, if no entry bore the identifier
-- of the payment before.
pub reverse_transaction-post :
    (type : TransactionType) (lines : List PostingLine) (key : TransactionKey)
    (origin : Option String) (status : TransactionStatus) (reference : String) (s s1 s2 : Store)
    (t r : Transaction)
    → entries_of t.id s ≡ []
    → post type lines key origin status s ≡ (ok (t, false), s1)
    → reverse_transaction t reference s1 ≡ (ok r, s2)
    → (k : ℕ) → (balance k s2).amount ≡ (balance k s).amount
unfolding balance entries_of
reverse_transaction-post type lines key origin status reference s s1 s2 t r new h g k =
    restored (subst (Posts lines key s) h (post-Posts type lines key origin status s))
  where
    restored :
        Posts lines key s (ok (t, false), s1)
        → net (is_of_account k) s2.entries ≡ net (is_of_account k) s.entries
    restored (b, absent, e, entries, same, more) = cancel_right _ _ (share k t.id s1) (
        reverse_transaction-takes t r reference s1 s2 g k
        ∙ ap (net (is_of_account k)) entries
        ∙ net-append (is_of_account k) s.entries (map (entry_of t.id) lines)
        ∙ ap (λ z. net (is_of_account k) s.entries +ℤ z) (sym own_share))
      where
        own_share : share k t.id s1 ≡ net (is_of_account k) (map (entry_of t.id) lines)
        own_share =
            ap (λ rows. net (is_of_account k) (select_rows (is_of_transaction t.id) rows)) entries
            ∙ ap (net (is_of_account k)) (
                select_rows-append (is_of_transaction t.id) s.entries (map (entry_of t.id) lines)
                ∙ rw new (own_entries t.id lines))
