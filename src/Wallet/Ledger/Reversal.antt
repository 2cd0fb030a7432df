-- ===== src/Wallet/Ledger/Reversal.antt =====
-- `LedgerService.contre_passer` of payfund_app/modules/wallet/application/ledger.py undoes a transaction.
use diddi_pay_backend.Prelude.{
  ℕ, ◌+◌, ◌≡◌, refl, ap, String, some, List, [], ◌∷◌, ◌++◌, map, Bool-cases, Option-cases, inl, inr,
}
use diddi_pay_backend.Wallet.Errors.{Result, ok, err}
use diddi_pay_backend.Wallet.Entities.{PostingLine, assert_balanced}
use diddi_pay_backend.Wallet.Entities.Balanced.{IsBalanced, assert_balanced_lem}
use diddi_pay_backend.Wallet.Store.{
  entries_of, reversal_key, pure, Store, Transaction, continue, get_by_idempotency_key,
  create_transaction, entry_of,
}
use diddi_pay_backend.Wallet.Ledger.{
  add_entries, post_on_transaction, reverse_transaction, is_empty_list, inverse,
}
use diddi_pay_backend.Wallet.Ledger.Entries.{Adds, add_entries-Adds, with_entries}

-- What `post_sur_transaction` adds if it does not raise.
abbrev pub PostsOn : ℕ → List PostingLine → Store → Result (Unit {0}) × Store → Type 0
PostsOn tx lines s (ok u, s') =
    IsBalanced lines × (s' ≡ with_entries s (s.entries ++ map (entry_of tx) lines))
PostsOn tx lines s (err e, s') = Unit

pub post_on_transaction-PostsOn :
    (t : Transaction) (lines : List PostingLine) (s : Store)
    → PostsOn t.id lines s (post_on_transaction t lines s)
unfolding post_on_transaction
post_on_transaction-PostsOn t lines s =
    checked (assert_balanced lines) (assert_balanced_lem lines).0.0
  where
    added :
        IsBalanced lines
        → (o : Result (Unit {0}) × Store) → Adds t.id lines s o
        → PostsOn t.id lines s o
    added b (ok u, s') h = (b, h)
    added b (err e, s') h = tt

    checked :
        (r : Result (Unit {0}))
        → (r ≡ ok tt → IsBalanced lines)
        → PostsOn t.id lines s (continue r (λ _. add_entries t.id lines) s)
    checked (ok u) b = added (b refl) (add_entries t.id lines s) (add_entries-Adds t.id lines s)
    checked (err e) b = tt

-- The lines of the reversal of a transaction.
abbrev pub reversal_lines : ℕ → String → Store → List PostingLine
reversal_lines tx reference s = map (inverse (some reference)) (entries_of tx s)

abbrev pub Reverses : Transaction → String → Store → Result Transaction × Store → Type 0
Reverses t reference s (ok r, s') =
    IsBalanced (reversal_lines t.id reference s)
    × (s'.entries ≡ s.entries ++ map (entry_of r.id) (reversal_lines t.id reference s))
    × (s'.accounts ≡ s.accounts)
    × (r.reverses_transaction_id ≡ some t.id)
Reverses t reference s (err e, s') = Unit

pub reverse_transaction-Reverses :
    (t : Transaction) (reference : String) (s : Store)
    → Reverses t reference s (reverse_transaction t reference s)
unfolding reverse_transaction create_transaction
reverse_transaction-Reverses t reference s = elim (Bool-cases (is_empty_list (entries_of t.id s))) [
  | inl none_left ↦ rw none_left tt
  | inr some_left ↦ elim (Option-cases (get_by_idempotency_key (reversal_key t.id) s)) [
    | inl absent ↦
        rw (some_left, absent)
          (after _ refl _ (post_on_transaction-PostsOn _ (reversal_lines t.id reference s) _))
    | inr (found, e) ↦ rw (some_left, e) tt
  ]
]
  where
    after :
        (r : Transaction)
        → r.reverses_transaction_id ≡ some t.id
        → (o : Result (Unit {0}) × Store)
        → PostsOn r.id
            (reversal_lines t.id reference s)
            (record s { transactions = s.transactions ++ r ∷ []; next_id = s.next_id + 1 })
            o
        → Reverses t reference s (continue o.0 (λ _. pure r) o.1)
    after r e (ok u, s') (b, h) = (b, ap (λ x. x.entries) h, ap (λ x. x.accounts) h, e)
    after r e (err x, s') h = tt
