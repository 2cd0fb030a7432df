-- ===== src/Wallet/UseCases/Samples.antt =====
-- A wallet with a PIN, and adapters for it, for the tests and the examples.
use diddi_pay_backend.Prelude.{str_eq, concat, none, some, [], ◌∷◌, true, false}
use diddi_pay_backend.Wallet.Errors.{err, not_implemented}
use diddi_pay_backend.Wallet.Entities.{user, technical, pending}
use diddi_pay_backend.Wallet.Store.{Store, Account, Transaction, TransactionPin}
use diddi_pay_backend.Wallet.Gateways.{Environment}
use diddi_pay_backend.Wallet.Samples.{account, deposited, deposit_transaction}

-- Hashes that carry the PIN itself, and the simulated gateway alone.
abbrev pub environment : Environment
environment = record {
  argon2_hash = λ salt pin. concat "$argon2id$" pin;
  argon2_verify = λ hash pin. str_eq hash (concat "$argon2id$" pin);
  check_needs_rehash = λ hash. false;
  sha256_hex = λ text. text;
  token_urlsafe = λ nonce. "token";
  uuid_text = λ n. "uuid";
  payment_gateway_mode = "stub";
  payment_gateway_autoconfirm = false;
  paystack = err not_implemented;
  pawapay = err not_implemented;
  step_up_threshold_xof = none;
  has_bus = true;
}

abbrev pub owned_account : Account
owned_account = record (account 1 user false) { user_id = some 7 }

abbrev pub pin_row : TransactionPin
pin_row = record {
  account_id = 1;
  pin_hash = "$argon2id$1234";
  pin_salt = "argon2id";
  failed_attempts = 4;
  locked_until = none;
}

-- The wallet after a deposit of the first user, whose PIN is 1234 and was wrong four times.
abbrev pub secured : Store
secured = record deposited {
  accounts = owned_account ∷ account 2 user false ∷ account 3 technical true ∷ [];
  pins = pin_row ∷ [];
}

-- A deposit that still waits for its confirmation.
abbrev pub waiting_deposit : Transaction
waiting_deposit = record deposit_transaction { status = pending; completed_at = none }

abbrev pub waiting : Store
waiting = record secured { transactions = waiting_deposit ∷ []; entries = [] }

-- The same wallet before any wrong PIN.
abbrev pub untried : Store
untried = record secured { pins = record pin_row { failed_attempts = 0 } ∷ [] }
