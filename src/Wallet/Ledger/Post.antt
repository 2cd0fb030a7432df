-- ===== src/Wallet/Ledger/Post.antt =====
-- `LedgerService.post` of payfund_app/modules/wallet/application/ledger.py writes a transaction whole, or not at all.
use diddi_pay_backend.Prelude.{
  ◌+◌, ◌≡◌, refl, ap, Bool, true, false, String, Option, none, some, List, [], ◌∷◌, ◌++◌, map,
  Option-cases, inl, inr,
}
use diddi_pay_backend.Wallet.Errors.{Result, ok, err, integrity_error}
use diddi_pay_backend.Wallet.Entities.{
  PostingLine, TransactionType, TransactionStatus, assert_balanced,
}
use diddi_pay_backend.Wallet.Entities.Balanced.{IsBalanced, assert_balanced_lem}
use diddi_pay_backend.Wallet.Store.{
  Store, Transaction, TransactionKey, pure, continue, get_by_idempotency_key, create_transaction,
  entry_of,
}
use diddi_pay_backend.Wallet.Ledger.{write, settle, nested, post}
use diddi_pay_backend.Wallet.Ledger.Entries.{Adds, add_entries-Adds}

-- What `post` does: a new transaction with all of its lines as entries, or nothing.
abbrev pub Posts :
    List PostingLine → TransactionKey → Store → Result (Transaction × Bool) × Store → Type 0
Posts lines key s (ok (t, false), s') =
    IsBalanced lines
    × (get_by_idempotency_key key s ≡ none)
    × (t.idempotency_key ≡ key)
    × (s'.entries ≡ s.entries ++ map (entry_of t.id) lines)
    × (s'.accounts ≡ s.accounts)
    × (s'.transactions ≡ s.transactions ++ t ∷ [])
Posts lines key s (ok (t, true), s') = (get_by_idempotency_key key s ≡ some t) × (s' ≡ s)
Posts lines key s (err e, s') = s' ≡ s

abbrev Writes : List PostingLine → TransactionKey → Store → Result Transaction × Store → Type 0
Writes lines key s (ok t, s') =
    (t.idempotency_key ≡ key)
    × (s'.entries ≡ s.entries ++ map (entry_of t.id) lines)
    × (s'.accounts ≡ s.accounts)
    × (s'.transactions ≡ s.transactions ++ t ∷ [])
Writes lines key s (err e, s') = Unit

module _ (type : TransactionType) (lines : List PostingLine) (key : TransactionKey)
    (origin : Option String) (status : TransactionStatus) (s : Store) where
  write-Writes : Writes lines key s (write type lines key origin status s)
  unfolding write create_transaction
  write-Writes = elim (Option-cases (get_by_idempotency_key key s)) [
    | inl absent ↦ rw absent (after _ refl _ (add_entries-Adds s.next_id lines _))
    | inr (found, e) ↦ rw e tt
  ]
    where
      after :
          (t : Transaction)
          → t.idempotency_key ≡ key
          → (o : Result (Unit {0}) × Store)
          → Adds t.id lines
              (record s { transactions = s.transactions ++ t ∷ []; next_id = s.next_id + 1 })
              o
          → Writes lines key s (continue o.0 (λ _. pure t) o.1)
      after t e (ok u, s') h =
          (e, ap (λ x. x.entries) h, ap (λ x. x.accounts) h, ap (λ x. x.transactions) h)
      after t e (err x, s') h = tt

  -- Whatever the lines, the key and the store: `post` either finds the key and answers the
  -- transaction that has it, or adds one transaction with the key, its lines balanced and all
  -- written as entries; in every other case it raises. Where it finds the key or raises, the store
  -- is untouched.
  pub post-Posts : Posts lines key s (post type lines key origin status s)
  unfolding post
  post-Posts = elim (Option-cases (get_by_idempotency_key key s)) [
    | inl absent ↦
        rw absent (checked absent (assert_balanced lines) (assert_balanced_lem lines).0.0)
    | inr (t, e) ↦ rw e (e, refl)
  ]
    where
      settled :
          get_by_idempotency_key key s ≡ none
          → IsBalanced lines
          → (o : Result Transaction × Store) → Writes lines key s o
          → Posts lines key s (settle key s o.0 o.1)
      settled absent b (ok t, s') (k, e, a, x) = (b, absent, k, e, a, x)
      settled absent b (err integrity_error, s') h = rw absent refl
      settled absent b (err _, s') h = refl

      checked :
          get_by_idempotency_key key s ≡ none
          → (r : Result (Unit {0})) → (r ≡ ok tt → IsBalanced lines)
          → Posts lines key s (continue r (λ _. nested key (write type lines key origin status)) s)
      checked absent (ok u) b =
          settled absent (b refl) (write type lines key origin status s) write-Writes
      checked absent (err e) b = refl
