-- ===== src/Wallet/Requests/NeverLocked.antt =====
-- The counts of failures and the locks of PINs that the requests of payfund_app/modules/wallet leave.
use diddi_pay_backend.Prelude.{
  ℕ, ◌≡◌, refl, sym, subst, Bool, String, none, List, [], ◌∷◌, ◌++◌, Bool-cases, inl, inr,
  update_rows,
}
use diddi_pay_backend.Wallet.Store.{Store, TransactionPin}
use diddi_pay_backend.Wallet.Store.Maintains.{Maintains}
use diddi_pay_backend.Wallet.Pins.{
  is_present, get_pin, is_of_pin, fresh_pin, set_pin, clear_lock, store_hash, replace_pin, unlocked,
  rehash,
}
use diddi_pay_backend.Wallet.Ledger.Frame.{
  transfer-Maintains, post_on_transaction-Maintains, reverse_transaction-Maintains,
}
use diddi_pay_backend.Wallet.Requests.Laws.{Invariant}
use diddi_pay_backend.Wallet.Requests.Reached.{Reached, Reached-holds}

-- A row that counts no failure and has no lock.
abbrev pub IsOpen : TransactionPin → Type 0
IsOpen row = (row.failed_attempts ≡ 0) × (row.locked_until ≡ none)

abbrev pub AllRows : List TransactionPin → Type 0
AllRows [] = Unit
AllRows (row ∷ rows) = IsOpen row × AllRows rows

abbrev pub AllOpen : Store → Type 0
AllOpen s = AllRows s.pins

AllRows-update_rows :
    (p : TransactionPin → Bool) (f : TransactionPin → TransactionPin) (rows : List TransactionPin)
    → ((row : TransactionPin) → IsOpen row → IsOpen (f row))
    → AllRows rows
    → AllRows (update_rows p f rows)
AllRows-update_rows p f [] k h = tt
AllRows-update_rows p f (row ∷ rows) k (h, hs) = elim (Bool-cases (p row)) [
  | inl hit ↦ rw hit (k row h, AllRows-update_rows p f rows k hs)
  | inr miss ↦ rw miss (h, AllRows-update_rows p f rows k hs)
]

AllRows-append :
    (rows : List TransactionPin) (row : TransactionPin)
    → AllRows rows
    → IsOpen row
    → AllRows (rows ++ row ∷ [])
AllRows-append [] row h k = (k, tt)
AllRows-append (r ∷ rows) row (h, hs) k = (h, AllRows-append rows row hs k)

same_pins : (s s' : Store) → s'.pins ≡ s.pins → AllOpen s → AllOpen s'
same_pins s s' e h = subst AllRows (sym e) h

set_pin-AllOpen : (id : ℕ) (hash salt : String) → Maintains AllOpen (set_pin id hash salt)
unfolding set_pin
set_pin-AllOpen id hash salt = record {
  at = λ s h. elim (Bool-cases (is_present (get_pin id s))) [
    | inl old ↦ rw old (
        AllRows-update_rows (is_of_pin id) (replace_pin hash salt) s.pins (λ row k. (refl, refl)) h)
    | inr new ↦ rw new (AllRows-append s.pins (fresh_pin id hash salt) h (refl, refl))
  ];
}

clear_lock-AllOpen : (row : TransactionPin) → Maintains AllOpen (clear_lock row)
unfolding clear_lock
clear_lock-AllOpen row = record {
  at =
      λ s h. AllRows-update_rows (is_of_pin row.account_id) unlocked s.pins (λ r k. (refl, refl)) h;
}

store_hash-AllOpen :
    (row : TransactionPin) (hash salt : String) → Maintains AllOpen (store_hash row hash salt)
unfolding store_hash
store_hash-AllOpen row hash salt = record {
  at = λ s h. AllRows-update_rows (is_of_pin row.account_id) (rehash hash salt) s.pins (λ r k. k) h;
}

AllOpen-Invariant : Invariant AllOpen
AllOpen-Invariant = record {
  frame = λ s s' e p h. same_pins s s' p h;
  transfers = transfer-Maintains same_pins;
  posts_on = post_on_transaction-Maintains same_pins;
  reverses = reverse_transaction-Maintains same_pins;
  sets_pin = set_pin-AllOpen;
  clears_lock = clear_lock-AllOpen;
  stores_hash = store_hash-AllOpen;
}

-- In every wallet that requests lead to from one where no PIN counts a failure or is locked, none
-- does and none is, whatever PINs the requests give.
pub Reached-AllOpen : {s : Store} → Reached AllOpen s → AllOpen s
Reached-AllOpen = Reached-holds AllOpen-Invariant
