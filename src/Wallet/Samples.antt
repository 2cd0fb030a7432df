-- ===== src/Wallet/Samples.antt =====
-- Sample accounts and payments for the tests and the examples.
use diddi_pay_backend.Prelude.{ℕ, none, some, List, [], ◌∷◌, Bool, true, false}
use diddi_pay_backend.Wallet.Money.{Money, xof}
use diddi_pay_backend.Wallet.Entities.{
  AccountType, user, technical, active, credit, debit, PostingLine, deposit, completed,
}
use diddi_pay_backend.Wallet.Store.{Account, LedgerEntry, Transaction, caller_key, Store}

abbrev pub francs : ℕ → Money
francs n = record { amount = n; currency = xof }

abbrev pub account : ℕ → AccountType → Bool → Account
account id account_type allows = record {
  id = id;
  user_id = none;
  account_type = account_type;
  currency = xof;
  status = active;
  reference = none;
  allows_negative_balance = allows;
}

-- Two users and the suspense account of a gateway.
abbrev pub opening : Store
opening = record {
  accounts = account 1 user false ∷ account 2 user false ∷ account 3 technical true ∷ [];
  transactions = [];
  entries = [];
  gateway_accounts = [];
  exchange_rates = [];
  conversions = [];
  phones = [];
  pins = [];
  recovery_codes = [];
  consumed_proofs = [];
  recovery_audits = [];
  outbox = [];
  published = [];
  clock = 10;
  next_id = 4;
}

abbrev pub line : ℕ → ℕ → PostingLine
line account_id n = record {
  account_id = account_id;
  direction = credit;
  money = francs n;
  reference = none;
}

abbrev pub debit_line : ℕ → ℕ → PostingLine
debit_line account_id n = record {
  account_id = account_id;
  direction = debit;
  money = francs n;
  reference = none;
}

-- A deposit of 500 francs by the first user.
abbrev pub deposit_lines : List PostingLine
deposit_lines = debit_line 3 500 ∷ line 1 500 ∷ []

abbrev pub deposit_transaction : Transaction
deposit_transaction = record {
  id = 4;
  transaction_type = deposit;
  status = completed;
  origin_module = none;
  account_id = none;
  money = none;
  reverses_transaction_id = none;
  idempotency_key = caller_key "deposit-1";
  completed_at = some 10;
  business_reference = none;
  provider_reference = none;
  gateway_mode = none;
  authorization_url = none;
  access_code = none;
}

abbrev pub entry : PostingLine → LedgerEntry
entry l = record {
  account_id = l.account_id;
  transaction_id = 4;
  direction = l.direction;
  amount = l.money.amount;
  currency = l.money.currency;
  reference = l.reference;
}

abbrev pub deposited : Store
deposited = record opening {
  transactions = deposit_transaction ∷ [];
  entries = entry (debit_line 3 500) ∷ entry (line 1 500) ∷ [];
  next_id = 5;
}
