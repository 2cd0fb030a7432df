-- ===== src/Wallet/Requests/Laws.antt =====
-- What an invariant of the wallet must satisfy for every request of payfund_app/modules/wallet to maintain
-- it: the writers of entries and of PINs maintain it, and it depends on nothing else.
use diddi_pay_backend.Prelude.{ℕ, ◌≡◌, refl, String, Option, List}
use diddi_pay_backend.Wallet.Errors.{Result, ok, err}
use diddi_pay_backend.Wallet.Money.{Money}
use diddi_pay_backend.Wallet.Entities.{PostingLine, TransactionType, TransactionStatus}
use diddi_pay_backend.Wallet.Store.{
  Store, Transaction, TransactionKey, TransactionPin, Action, request, kept,
}
use diddi_pay_backend.Wallet.Store.Maintains.{Maintains, After}
use diddi_pay_backend.Wallet.Ledger.{transfer, post_on_transaction, reverse_transaction}
use diddi_pay_backend.Wallet.Pins.{set_pin, clear_lock, store_hash}

pub record Invariant (I : Store → Type 0) : Type 0 where
  pub frame : (s s' : Store) → s'.entries ≡ s.entries → s'.pins ≡ s.pins → I s → I s'
  pub transfers :
      (from to : ℕ) (amount : Money) (type : TransactionType) (reference : String)
      (key : TransactionKey) (origin : Option String) (status : TransactionStatus)
      → Maintains I (transfer from to amount type reference key origin status)
  pub posts_on :
      (t : Transaction) (lines : List PostingLine) → Maintains I (post_on_transaction t lines)
  pub reverses :
      (t : Transaction) (reference : String) → Maintains I (reverse_transaction t reference)
  pub sets_pin : (account_id : ℕ) (hash salt : String) → Maintains I (set_pin account_id hash salt)
  pub clears_lock : (row : TransactionPin) → Maintains I (clear_lock row)
  pub stores_hash :
      (row : TransactionPin) (hash salt : String) → Maintains I (store_hash row hash salt)

-- Operations that leave the entries and the PINs as they are, whatever they answer.
pub record Frames {A : Type 0} (m : Action A) : Type 0 where
  pub entries : (s : Store) → (m s).1.entries ≡ s.entries
  pub pins : (s : Store) → (m s).1.pins ≡ s.pins

module _ {I : Store → Type 0} (laws : Invariant I) where
  pub Frames-Maintains : {A : Type 0} (m : Action A) → Frames m → Maintains I m
  Frames-Maintains m f = record { at = λ s h. go s (m s) (f.entries s) (f.pins s) h }
    where
      go :
          {A : Type 0} (s : Store) (o : Result A × Store)
          → o.1.entries ≡ s.entries
          → o.1.pins ≡ s.pins
          → I s
          → After I o
      go s (ok a, s') e p h = laws.frame s s' e p h
      go s (err x, s') e p h = tt

  -- A request maintains the invariant whatever it answers.
  pub request-Maintains :
      {A : Type 0} (m : Action A) → Maintains I m → (s : Store) → I s → I (request m s).1
  unfolding request
  request-Maintains m k s h = go (m s) (k.at s h)
    where
      go : {A : Type 0} (o : Result A × Store) → After I o → I (kept s o.0 o.1).1
      go (ok a, s') i = i
      go (err e, s') i = laws.frame s _ refl refl h
