-- ===== src/Wallet/UseCases/Operations.antt =====
-- The deposits and withdrawals of payfund_app/modules/wallet/application/use_cases.py.
pub mod Settled
use diddi_pay_backend.Prelude.{
  ℕ, Bool, true, not, ◌&&◌, String, str_eq, is_empty, concat, Option, none, some, List, [], ◌∷◌,
  ◌is◌,
}
use diddi_pay_backend.Prelude.Int.{ℤ}
use diddi_pay_backend.Wallet.Errors.{
  Error, Result, ok, err, invalid_amount_error, transaction_not_found, gateway_unavailable,
  withdrawal_not_supported, deposit_method_not_supported, integrity_error, type_error,
}
use diddi_pay_backend.Wallet.Money.{Money, Currency, xof}
use diddi_pay_backend.Wallet.Entities.{
  technical, debit, credit, PostingLine, deposit, withdrawal, pending, completed, failed, reversed,
}
use diddi_pay_backend.Wallet.Entities.Codes.{transaction_type_enum, transaction_status_enum}
use diddi_pay_backend.Wallet.Store.{
  Account, Transaction, GatewayAccount, caller_key, Action, pure, lift, gets, branch, raise_if,
  ◌>>=◌, ◌>>◌, create_account, create_transaction, get_transaction, get_by_idempotency_key, assign,
  mark,
}
use diddi_pay_backend.Wallet.Ledger.{post_on_transaction, reverse_transaction, transfer}
use diddi_pay_backend.Wallet.Gateways.{
  Environment, Gateway, GatewayStatus, GatewayOperation, Answer, operation, unsupported,
  unavailable, gateway_for_provider, account_id_for, register_gateway,
}
use diddi_pay_backend.Wallet.UseCases.{or_raise, to_money, draw, compte_de, publish_completed}
use diddi_pay_backend.Wallet.UseCases.Pin.{verify_pin}
use diddi_pay_backend.Wallet.UseCases.Payments.{is_positive}

pub record DepositResult : Type 0 where
  pub transaction : Transaction
  pub authorization_url : Option String
  pub access_code : Option String

abbrev pub new_suspense : String → Currency → Action ℕ
new_suspense gateway_mode currency = do
  account ← create_account none technical currency (some (concat "gateway:" gateway_mode)) true
  register_gateway gateway_mode account.id
  pure account.id

abbrev pub known_suspense : Option GatewayAccount → Action ℕ → Action ℕ
known_suspense none action = action
known_suspense (some row) action = pure row.account_id

-- `_compte_suspense`
unfoldable pub compte_suspense : String → Currency → Action ℕ
compte_suspense gateway_mode currency = do
  existing ← gets (account_id_for gateway_mode)
  known_suspense existing (new_suspense gateway_mode currency)

abbrev pub money_or : Option Money → Result Money
money_or none = err type_error
money_or (some m) = ok m

abbrev account_or : Option ℕ → Result ℕ
account_or none = err integrity_error
account_or (some id) = ok id

abbrev pub deposit_lines : ℕ → ℕ → Money → String → List PostingLine
deposit_lines suspense_id account_id amount reference =
    record {
      account_id = suspense_id;
      direction = debit;
      money = amount;
      reference = some reference;
    }
    ∷ record {
      account_id = account_id;
      direction = credit;
      money = amount;
      reference = some reference;
    }
    ∷ []

-- The entries of a deposit that is confirmed. Its amount and its account were set when it was made; the
-- ledger refuses an entry without.
unfoldable pub post_deposit : Transaction → String → Action (Unit {0})
post_deposit transaction gateway_mode = do
  amount ← lift (money_or transaction.money)
  suspense_id ← compte_suspense gateway_mode xof
  account_id ← lift (account_or transaction.account_id)
  post_on_transaction transaction
      (deposit_lines suspense_id account_id amount (concat "wallet:deposit:" gateway_mode))

abbrev pub publish_money : Bool → Transaction → Option Money → Action (Unit {0})
publish_money has_bus transaction none = pure tt
publish_money has_bus transaction (some amount) = publish_completed has_bus transaction amount

module _ (env : Environment) where
  -- `confirmer_operation` on a transaction that is pending
  unfoldable pub confirm : Transaction → String → Action Transaction
  confirm transaction gateway_mode = do
    branch (transaction.transaction_type is deposit) (post_deposit transaction gateway_mode)
        (pure tt)
    mark transaction.id completed
    publish_money env.has_bus (record transaction { status = completed }) transaction.money
    found ← gets (get_transaction transaction.id)
    lift (or_raise found transaction_not_found)

  -- `confirmer_operation`
  unfoldable pub confirmer_operation : ℕ → String → Action Transaction
  confirmer_operation transaction_id gateway_mode = do
    found ← gets (get_transaction transaction_id)
    transaction ← lift (or_raise found transaction_not_found)
    branch (not (transaction.status is pending)) (pure transaction)
        (confirm transaction gateway_mode)

-- `echouer_operation` on a transaction that is pending
unfoldable pub fail : Transaction → String → Action Transaction
fail transaction gateway_mode = do
  branch (transaction.transaction_type is withdrawal)
      (reverse_transaction transaction (concat "wallet:reversal:" gateway_mode)
        >> mark transaction.id reversed)
      (mark transaction.id failed)
  found ← gets (get_transaction transaction.id)
  lift (or_raise found transaction_not_found)

-- `echouer_operation`
unfoldable pub echouer_operation : ℕ → String → Action Transaction
echouer_operation transaction_id gateway_mode = do
  found ← gets (get_transaction transaction_id)
  transaction ← lift (or_raise found transaction_not_found)
  branch (not (transaction.status is pending)) (pure transaction) (fail transaction gateway_mode)

-- The operation that a gateway answers, or the exception that its failure becomes.
abbrev pub operation_or : Error → Answer → Result GatewayOperation
operation_or refused (operation o) = ok o
operation_or refused unsupported = err refused
operation_or refused unavailable = err gateway_unavailable

module _ (env : Environment) where
  -- What is done at once when the gateway has already settled.
  unfoldable pub settle_at_once : ℕ → String → GatewayStatus → Action (Unit {0})
  settle_at_once transaction_id gateway_mode GatewayStatus.pending = pure tt
  settle_at_once transaction_id gateway_mode GatewayStatus.completed =
      confirmer_operation env transaction_id gateway_mode >> pure tt
  settle_at_once transaction_id gateway_mode GatewayStatus.failed =
      echouer_operation transaction_id gateway_mode >> pure tt

  abbrev started : GatewayOperation → Transaction → Transaction
  started o row = record row {
    provider_reference = some o.provider_reference;
    authorization_url = o.authorization_url;
    access_code = o.access_code;
  }

  -- `deposer` after the creation of the transaction
  unfoldable pub start_deposit :
      Gateway → String → String → Option String → Money → ℕ → Action DepositResult
  start_deposit gateway provider phone email amount id = do
    o ← lift (
        operation_or deposit_method_not_supported
          (gateway.initier_depot provider phone email amount.amount (env.uuid_text id)))
    assign id (started o)
    settle_at_once id gateway.mode o.status
    found ← gets (get_transaction id)
    transaction ← lift (or_raise found transaction_not_found)
    pure (record {
      transaction = transaction;
      authorization_url = o.authorization_url;
      access_code = o.access_code;
    })

  abbrev lacks_email : String → Option String → Bool
  lacks_email provider none = str_eq provider "paystack"
  lacks_email provider (some email) = str_eq provider "paystack" && is_empty email

  -- `deposer` on a new key
  unfoldable pub new_deposit :
      ℕ → String → ℤ → String → Option String → String → Action DepositResult
  new_deposit user_id provider amount phone email idempotency_key = do
    account ← compte_de user_id
    money ← lift (to_money amount account.currency)
    raise_if (not (is_positive money)) invalid_amount_error
    fresh ← draw
    gateway ← lift (gateway_for_provider env (env.uuid_text fresh) provider)
    compte_suspense gateway.mode account.currency
    raise_if (lacks_email provider email) invalid_amount_error
    transaction ←
        create_transaction deposit pending (some "wallet") (caller_key idempotency_key) none
          (some account.id) (some money) none
    assign transaction.id (λ row. record row { gateway_mode = some gateway.mode })
    start_deposit gateway provider phone email money transaction.id

  abbrev pub replayed_deposit : Option Transaction → Action DepositResult → Action DepositResult
  replayed_deposit none action = action
  replayed_deposit (some transaction) action = pure (record {
    transaction = transaction;
    authorization_url = transaction.authorization_url;
    access_code = transaction.access_code;
  })

  -- `deposer`
  unfoldable pub deposer : ℕ → String → ℤ → String → Option String → String → Action DepositResult
  deposer user_id provider amount phone email idempotency_key = do
    existing ← gets (get_by_idempotency_key (caller_key idempotency_key))
    replayed_deposit existing (new_deposit user_id provider amount phone email idempotency_key)

  abbrev reserved : Account → Money → String → Transaction → Transaction
  reserved account money mode row = record row {
    account_id = some account.id;
    money = some money;
    gateway_mode = some mode;
  }

  -- `retirer` after the entries were written
  unfoldable pub start_withdrawal : Gateway → String → String → Money → ℕ → Action Transaction
  start_withdrawal gateway provider phone amount id = do
    o ← lift (
        operation_or withdrawal_not_supported
          (gateway.initier_retrait provider phone amount.amount (env.uuid_text id)))
    assign id (λ row. record row { provider_reference = some o.provider_reference })
    settle_at_once id gateway.mode o.status
    found ← gets (get_transaction id)
    lift (or_raise found transaction_not_found)

  -- `retirer` on a new key
  unfoldable pub new_withdrawal : Account → String → ℤ → String → String → Action Transaction
  new_withdrawal account provider amount phone idempotency_key = do
    money ← lift (to_money amount account.currency)
    raise_if (not (is_positive money)) invalid_amount_error
    fresh ← draw
    gateway ← lift (gateway_for_provider env (env.uuid_text fresh) provider)
    raise_if (not (gateway.supports_withdrawal provider)) withdrawal_not_supported
    suspense_id ← compte_suspense gateway.mode account.currency
    outcome ←
        transfer account.id suspense_id money withdrawal (concat "wallet:withdrawal:" provider)
          (caller_key idempotency_key) (some "wallet") pending
    assign outcome.0.id (reserved account money gateway.mode)
    start_withdrawal gateway provider phone money outcome.0.id

  abbrev pub replayed_withdrawal : Option Transaction → Action Transaction → Action Transaction
  replayed_withdrawal none action = action
  replayed_withdrawal (some transaction) action = pure transaction

  -- `retirer`
  unfoldable pub retirer : ℕ → String → ℤ → String → String → String → Action Transaction
  retirer user_id provider amount phone pin idempotency_key = do
    account ← compte_de user_id
    verify_pin env account.id pin
    existing ← gets (get_by_idempotency_key (caller_key idempotency_key))
    replayed_withdrawal existing (new_withdrawal account provider amount phone idempotency_key)
