-- ===== src/Wallet/Ledger.antt =====
-- payfund_app/modules/wallet/application/ledger.py: `LedgerService`, the only writer of ledger entries.
pub mod Entries
pub mod Post
pub mod Reversal
pub mod Transfer
pub mod Undo
pub mod ZeroSum
pub mod Funds
pub mod Frame
use diddi_pay_backend.Prelude.{
  ℕ, Bool, true, false, not, ◌||◌, String, Option, none, some, List, [], ◌∷◌, map, ◌is◌,
  if◌then◌else◌,
}
use diddi_pay_backend.Wallet.Errors.{
  Error, Result, ok, err, integrity_error, account_not_found, account_not_active, currency_mismatch,
  insufficient_balance, unbalanced_ledger,
}
use diddi_pay_backend.Wallet.Money.{Money, Currency, currency_enum, covers}
use diddi_pay_backend.Wallet.Entities.{
  AccountStatus, active, frozen, closed, Direction, debit, credit, PostingLine, TransactionType,
  TransactionStatus, completed, pending, failed, reversed, assert_balanced,
}
use diddi_pay_backend.Wallet.Store.{
  Account, LedgerEntry, Transaction, TransactionKey, reversal_key, Store, Action, ◌>>=◌, ◌>>◌, pure,
  raise, lift, gets, branch, continue, raise_if, get_account, balance, add_entry, entries_of,
  get_by_idempotency_key, create_transaction,
}

abbrev is_active : AccountStatus → Bool
is_active active = true
is_active _ = false

abbrev is_closed : AccountStatus → Bool
is_closed closed = true
is_closed _ = false

abbrev debitable : Option Account → Result Account
debitable none = err account_not_found
debitable (some account) = if is_active account.status then ok account else err account_not_active

abbrev creditable : Option Account → Result Account
creditable none = err account_not_found
creditable (some account) = if is_closed account.status then err account_not_active else ok account

-- `_load_debitable` and `_load_creditable`
unfoldable pub load_debitable : ℕ → Action Account
load_debitable id s = (debitable (get_account id s), s)

unfoldable pub load_creditable : ℕ → Action Account
load_creditable id s = (creditable (get_account id s), s)

-- `ensure_sufficient`
unfoldable pub ensure_sufficient : ℕ → Money → Action (Unit {0})
ensure_sufficient account_id amount = do
  current ← gets (balance account_id)
  covered ← lift (covers current amount)
  raise_if (not covered) insufficient_balance

-- The loop over the lines of a transaction.
unfoldable pub add_entries : ℕ → List PostingLine → Action (Unit {0})
unfolding add_entry
add_entries transaction_id [] s = (ok tt, s)
add_entries transaction_id (line ∷ lines) s =
    let (r, s') = add_entry transaction_id line s in
    continue r (λ _. add_entries transaction_id lines) s'

-- `post_sur_transaction`
unfoldable pub post_on_transaction : Transaction → List PostingLine → Action (Unit {0})
post_on_transaction transaction lines = do
  lift (assert_balanced lines)
  add_entries transaction.id lines

abbrev completion : TransactionStatus → ℕ → Option ℕ
completion completed now = some now
completion _ now = none

-- The body of the savepoint in `post`.
unfoldable pub write :
    TransactionType
    → List PostingLine
    → TransactionKey
    → Option String
    → TransactionStatus
    → Action Transaction
write type lines key origin status = do
  now ← gets (λ s. s.clock)
  transaction ← create_transaction type status origin key (completion status now) none none none
  add_entries transaction.id lines
  pure transaction

abbrev found_again : Option Transaction → Action (Transaction × Bool)
found_again none = raise integrity_error
found_again (some transaction) = pure (transaction, true)

-- After the savepoint: an `IntegrityError` rolls back to `saved` and reads the winner.
abbrev settle : TransactionKey → Store → Result Transaction → Action (Transaction × Bool)
settle key saved (ok transaction) s = (ok (transaction, false), s)
settle key saved (err integrity_error) s = found_again (get_by_idempotency_key key saved) saved
settle key saved (err e) s = (err e, saved)

abbrev nested : TransactionKey → Action Transaction → Action (Transaction × Bool)
nested key action s = let (r, s') = action s in settle key s r s'

abbrev unless_known : Option Transaction → Action (Transaction × Bool) → Action (Transaction × Bool)
unless_known (some transaction) action = pure (transaction, true)
unless_known none action = action

-- `post`; the flag says that the key was known.
unfoldable pub post :
    TransactionType
    → List PostingLine
    → TransactionKey
    → Option String
    → TransactionStatus
    → Action (Transaction × Bool)
post type lines key origin status = do
  existing ← gets (get_by_idempotency_key key)
  unless_known existing
      (lift (assert_balanced lines) >> nested key (write type lines key origin status))

abbrev opposite : Direction → Direction
opposite debit = credit
opposite credit = debit

abbrev pub inverse : Option String → LedgerEntry → PostingLine
inverse reference entry = record {
  account_id = entry.account_id;
  direction = opposite entry.direction;
  money = record { amount = entry.amount; currency = entry.currency };
  reference = reference;
}

abbrev pub is_empty_list : List LedgerEntry → Bool
is_empty_list [] = true
is_empty_list (_ ∷ _) = false

-- `contre_passer`
unfoldable pub reverse_transaction : Transaction → String → Action Transaction
reverse_transaction transaction reference = do
  originals ← gets (entries_of transaction.id)
  raise_if (is_empty_list originals) unbalanced_ledger
  now ← gets (λ s. s.clock)
  reversal ←
      create_transaction transaction.transaction_type completed transaction.origin_module
        (reversal_key transaction.id) (some now) transaction.account_id transaction.money
        (some transaction.id)
  post_on_transaction reversal (map (inverse (some reference)) originals)
  pure reversal

abbrev pub move_lines : ℕ → ℕ → Money → String → List PostingLine
move_lines source destination amount reference =
    record { account_id = source; direction = debit; money = amount; reference = some reference }
    ∷ record {
      account_id = destination;
      direction = credit;
      money = amount;
      reference = some reference;
    }
    ∷ []

-- `transfer`
unfoldable pub transfer :
    ℕ
    → ℕ
    → Money
    → TransactionType
    → String
    → TransactionKey
    → Option String
    → TransactionStatus
    → Action (Transaction × Bool)
transfer source_id destination_id amount type reference key origin status = do
  existing ← gets (get_by_idempotency_key key)
  unless_known existing (do
    source ← load_debitable source_id
    destination ← load_creditable destination_id
    raise_if
        (not (source.currency is destination.currency) || not (source.currency is amount.currency))
        currency_mismatch
    branch source.allows_negative_balance (pure tt) (ensure_sufficient source.id amount)
    post type (move_lines source.id destination.id amount reference) key origin status)
