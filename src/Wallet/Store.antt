-- ===== src/Wallet/Store.antt =====
-- The tables of payfund_app/modules/wallet/infra/models.py, and the repositories of
-- payfund_app/modules/wallet/infra/repositories.py on those that the ledger uses. A UUID is the next
-- value of a counter.
mod Tables
mod Actions
pub mod Maintains
pub mod Ensures
pub use Tables.*
unfoldable pub use Actions.*
use diddi_pay_backend.Prelude.{
  ℕ, ◌+◌, ◌++◌, Bool, true, false, String, str_eq, Option, none, some, List, [], ◌∷◌, ◌==◌, ◌&&◌,
  ◌is◌, find_row, select_rows, update_rows, if◌then◌else◌, option_text_eq,
}
use diddi_pay_backend.Wallet.Entities.Codes.{account_type_enum}
use diddi_pay_backend.Prelude.Int.{ℤ, pos, ◌+ℤ◌}
use diddi_pay_backend.Wallet.Errors.{Error, Result, ok, err, integrity_error}
use diddi_pay_backend.Wallet.Money.{Money, Currency, currency_enum, Balance, xof}
use diddi_pay_backend.Wallet.Entities.{
  AccountType, AccountStatus, Direction, TransactionType, TransactionStatus, PostingLine, signed,
  completed, active,
}

-- `AccountRepository.get`, and `get_for_update`, which also locks the row
unfoldable pub get_account : ℕ → Store → Option Account
get_account id s = find_row (λ row. row.id == id) s.accounts

abbrev is_owner : ℕ → Option ℕ → Bool
is_owner user_id none = false
is_owner user_id (some id) = id == user_id

-- `AccountRepository.get_by_user`
unfoldable pub get_by_user : ℕ → Currency → AccountType → Store → Option Account
get_by_user user_id currency account_type s =
    find_row
      (λ row.
        is_owner user_id row.user_id
        && row.currency is currency
        && row.account_type is account_type)
      s.accounts

-- `AccountRepository.get_by_reference`
unfoldable pub get_by_reference : String → Store → Option Account
get_by_reference reference s =
    find_row (λ row. option_text_eq row.reference (some reference)) s.accounts

-- The signed sum of the entries that pass a test.
abbrev pub net : (LedgerEntry → Bool) → List LedgerEntry → ℤ
net p [] = pos 0
net p (entry ∷ entries) =
    let rest = net p entries in
    if p entry then signed entry.direction entry.amount +ℤ rest else rest

abbrev pub is_of_account : ℕ → LedgerEntry → Bool
is_of_account account_id entry = entry.account_id == account_id

abbrev pub currency_or_xof : Option Account → Currency
currency_or_xof none = xof
currency_or_xof (some account) = account.currency

-- `AccountRepository.balance`
unfoldable pub balance : ℕ → Store → Balance
unfolding get_account
balance account_id s = record {
  amount = net (is_of_account account_id) s.entries;
  currency = currency_or_xof (get_account account_id s);
}

-- `AccountRepository.create`
unfoldable pub create_account :
    Option ℕ → AccountType → Currency → Option String → Bool → Action Account
create_account user_id account_type currency reference allows s =
    let account : Account = record {
      id = s.next_id;
      user_id = user_id;
      account_type = account_type;
      currency = currency;
      status = active;
      reference = reference;
      allows_negative_balance = allows;
    } in
    (ok account, record s { accounts = s.accounts ++ account ∷ []; next_id = s.next_id + 1 })

-- `AccountRepository.set_status`
unfoldable pub set_status : ℕ → AccountStatus → Action (Unit {0})
set_status account_id status = modify (λ s. record s {
  accounts =
      update_rows (λ row. row.id == account_id) (λ row. record row { status = status }) s.accounts;
})

abbrev pub is_known : Option Account → Bool
is_known none = false
is_known (some _) = true

abbrev pub entry_of : ℕ → PostingLine → LedgerEntry
entry_of transaction_id line = record {
  account_id = line.account_id;
  transaction_id = transaction_id;
  direction = line.direction;
  amount = line.money.amount;
  currency = line.money.currency;
  reference = line.reference;
}

-- `LedgerRepository.add_entry`; the flush refuses an unknown account.
unfoldable pub add_entry : ℕ → PostingLine → Action (Unit {0})
add_entry transaction_id line s =
    branch (is_known (get_account line.account_id s))
      (modify (λ t. record t { entries = t.entries ++ entry_of transaction_id line ∷ [] }))
      (raise integrity_error) s

abbrev pub is_of_transaction : ℕ → LedgerEntry → Bool
is_of_transaction transaction_id entry = entry.transaction_id == transaction_id

-- `LedgerRepository.entries_of`
unfoldable pub entries_of : ℕ → Store → List LedgerEntry
entries_of transaction_id s = select_rows (is_of_transaction transaction_id) s.entries

abbrev pub key_eq : TransactionKey → TransactionKey → Bool
key_eq (caller_key a) (caller_key b) = str_eq a b
key_eq (reversal_key a) (reversal_key b) = a == b
key_eq _ _ = false

-- `TransactionRepository.get_by_idempotency_key`
unfoldable pub get_by_idempotency_key : TransactionKey → Store → Option Transaction
get_by_idempotency_key key s = find_row (λ row. key_eq row.idempotency_key key) s.transactions

abbrev pub is_taken : Option Transaction → Bool
is_taken none = false
is_taken (some _) = true

-- `TransactionRepository.create`; the keys of transactions are unique.
unfoldable pub create_transaction :
    TransactionType
    → TransactionStatus
    → Option String
    → TransactionKey
    → Option ℕ
    → Option ℕ
    → Option Money
    → Option ℕ
    → Action Transaction
create_transaction type status origin key completed_at account_id money reverses s =
    let row : Transaction = record {
      id = s.next_id;
      transaction_type = type;
      status = status;
      origin_module = origin;
      account_id = account_id;
      money = money;
      reverses_transaction_id = reverses;
      idempotency_key = key;
      completed_at = completed_at;
      business_reference = none;
      provider_reference = none;
      gateway_mode = none;
      authorization_url = none;
      access_code = none;
    } in
    branch (is_taken (get_by_idempotency_key key s)) (raise integrity_error)
      (λ t.
        (ok row, record t { transactions = t.transactions ++ row ∷ []; next_id = t.next_id + 1 }))
      s

-- `TransactionRepository.get`
unfoldable pub get_transaction : ℕ → Store → Option Transaction
get_transaction id s = find_row (λ row. row.id == id) s.transactions

-- `LedgerRepository.entry_for_account`
unfoldable pub entry_for_account : ℕ → ℕ → Store → Option LedgerEntry
entry_for_account transaction_id account_id s =
    find_row (λ row. row.transaction_id == transaction_id && row.account_id == account_id) s.entries

-- Assignments to the attributes of a transaction, and the flush.
unfoldable pub assign : ℕ → (Transaction → Transaction) → Action (Unit {0})
assign transaction_id f = modify (λ s. record s {
  transactions = update_rows (λ row. row.id == transaction_id) f s.transactions;
})

abbrev pub marked : ℕ → TransactionStatus → Transaction → Transaction
marked now completed row = record row { status = completed; completed_at = some now }
marked now status row = record row { status = status }

-- `TransactionRepository.marquer`
unfoldable pub mark : ℕ → TransactionStatus → Action (Unit {0})
mark transaction_id status s = (
  ok tt,
  record s {
    transactions =
        update_rows (λ row. row.id == transaction_id) (marked s.clock status) s.transactions;
  },
)
