-- ===== src/Wallet/Ledger/Frame.antt =====
-- What an operation of payfund_app/modules/wallet/application/ledger.py writes besides entries and
-- transactions: nothing.
use diddi_pay_backend.Prelude.{
  ℕ, ◌≡◌, refl, Bool, String, Option, none, some, List, [], ◌∷◌, Bool-cases, inl, inr,
}
use diddi_pay_backend.Wallet.Errors.{Result, ok, err, integrity_error}
use diddi_pay_backend.Wallet.Money.{Money}
use diddi_pay_backend.Wallet.Entities.{PostingLine, TransactionType, TransactionStatus}
use diddi_pay_backend.Wallet.Store.{
  Store, Transaction, TransactionKey, Action, create_transaction, add_entry, is_known, is_taken,
  get_account, get_by_idempotency_key,
}
use diddi_pay_backend.Wallet.Store.Maintains.{Maintains, Maintains-bind, After, maintains_rules}
use diddi_pay_backend.Wallet.Ledger.{
  transfer, post, write, post_on_transaction, reverse_transaction, add_entries, load_debitable,
  load_creditable, ensure_sufficient, unless_known, nested, settle, found_again,
}

-- An invariant that reads no more than the PINs.
module _ {I : Store → Type 0} (frame : (s s' : Store) → s'.pins ≡ s.pins → I s → I s') where
  framed : {A : Type 0} (m : Action A) → ((s : Store) → (m s).1.pins ≡ s.pins) → Maintains I m
  framed m f = record { at = λ s h. go s (m s) (f s) h }
    where
      go : {A : Type 0} (s : Store) (o : Result A × Store) → o.1.pins ≡ s.pins → I s → After I o
      go s (ok a, s') e h = frame s s' e h
      go s (err x, s') e h = tt

  add_entry-Maintains : (id : ℕ) (line : PostingLine) → Maintains I (add_entry id line)
  unfolding add_entry
  add_entry-Maintains id line = framed _ (λ s.
      elim (Bool-cases (is_known (get_account line.account_id s))) [
        | inl known ↦ rw known refl
        | inr unknown ↦ rw unknown refl
      ])

  add_entries-Maintains : (id : ℕ) (lines : List PostingLine) → Maintains I (add_entries id lines)
  unfolding add_entries
  add_entries-Maintains id [] = record { at = λ s h. h }
  add_entries-Maintains id (line ∷ lines) = record {
    at =
        (Maintains-bind (add_entry id line) (λ _. add_entries id lines)
          (add_entry-Maintains id line) (λ _. add_entries-Maintains id lines)).at;
  }

  create_transaction-Maintains :
      (type : TransactionType) (status : TransactionStatus) (origin : Option String)
      (key : TransactionKey) (at : Option ℕ) (account_id : Option ℕ) (money : Option Money)
      (reverses : Option ℕ)
      → Maintains I (create_transaction type status origin key at account_id money reverses)
  unfolding create_transaction
  create_transaction-Maintains type status origin key at account_id money reverses = framed _ (λ s.
      elim (Bool-cases (is_taken (get_by_idempotency_key key s))) [
        | inl taken ↦ rw taken refl
        | inr free ↦ rw free refl
      ])

  unless_known-Maintains :
      (o : Option Transaction) (m : Action (Transaction × Bool))
      → Maintains I m
      → Maintains I (unless_known o m)
  unless_known-Maintains none m h = record { at = h.at }
  unless_known-Maintains (some t) m h = record { at = λ s i. i }

  nested-Maintains :
      (key : TransactionKey) (m : Action Transaction) → Maintains I m → Maintains I (nested key m)
  nested-Maintains key m h = record { at = λ s i. go s (m s) i (h.at s i) }
    where
      again : (o : Option Transaction) (s : Store) → I s → After I (found_again o s)
      again none s i = tt
      again (some t) s i = i

      go :
          (s : Store) (o : Result Transaction × Store)
          → I s
          → After I o
          → After I (settle key s o.0 o.1)
      go s (ok t, s') i j = j
      go s (err integrity_error, s') i j = again (get_by_idempotency_key key s) s i
      go s (err e, s') i j = tt

  write-Maintains :
      (type : TransactionType) (lines : List PostingLine) (key : TransactionKey)
      (origin : Option String) (status : TransactionStatus)
      → Maintains I (write type lines key origin status)
  unfolding write
  write-Maintains type lines key origin status =
      search (maintains_rules, create_transaction-Maintains, add_entries-Maintains) depth 12

  post-Maintains :
      (type : TransactionType) (lines : List PostingLine) (key : TransactionKey)
      (origin : Option String) (status : TransactionStatus)
      → Maintains I (post type lines key origin status)
  unfolding post
  post-Maintains type lines key origin status =
      search (maintains_rules, unless_known-Maintains, nested-Maintains, write-Maintains) depth 12

  load_debitable-Maintains : (id : ℕ) → Maintains I (load_debitable id)
  unfolding load_debitable
  load_debitable-Maintains id = framed _ (λ s. refl)

  load_creditable-Maintains : (id : ℕ) → Maintains I (load_creditable id)
  unfolding load_creditable
  load_creditable-Maintains id = framed _ (λ s. refl)

  ensure_sufficient-Maintains : (id : ℕ) (m : Money) → Maintains I (ensure_sufficient id m)
  unfolding ensure_sufficient
  ensure_sufficient-Maintains id m = search maintains_rules depth 8

  pub transfer-Maintains :
      (from to : ℕ) (amount : Money) (type : TransactionType) (reference : String)
      (key : TransactionKey) (origin : Option String) (status : TransactionStatus)
      → Maintains I (transfer from to amount type reference key origin status)
  unfolding transfer
  transfer-Maintains from to amount type reference key origin status =
      search
        (
          maintains_rules, unless_known-Maintains, load_debitable-Maintains,
          load_creditable-Maintains, ensure_sufficient-Maintains, post-Maintains,
        )
        depth 20

  pub post_on_transaction-Maintains :
      (t : Transaction) (lines : List PostingLine) → Maintains I (post_on_transaction t lines)
  unfolding post_on_transaction
  post_on_transaction-Maintains t lines = search (maintains_rules, add_entries-Maintains)

  pub reverse_transaction-Maintains :
      (t : Transaction) (reference : String) → Maintains I (reverse_transaction t reference)
  unfolding reverse_transaction
  reverse_transaction-Maintains t reference =
      search (maintains_rules, create_transaction-Maintains, post_on_transaction-Maintains) depth 16
