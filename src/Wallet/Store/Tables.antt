-- ===== src/Wallet/Store/Tables.antt =====
-- The tables of payfund_app/modules/wallet/infra/models.py. Rows stand in the order of insertion; the
-- times of creation and of the last update are left out.
use diddi_pay_backend.Prelude.{ℕ, Bool, String, Option, List}
use diddi_pay_backend.Prelude.Decimals.{Decimal}
use diddi_pay_backend.Wallet.Money.{Money, Currency}
use diddi_pay_backend.Wallet.Entities.{
  AccountType, AccountStatus, Direction, TransactionType, TransactionStatus,
}

pub record Account : Type 0 where
  pub id : ℕ
  pub user_id : Option ℕ
  pub account_type : AccountType
  pub currency : Currency
  pub status : AccountStatus
  pub reference : Option String
  pub allows_negative_balance : Bool

pub record LedgerEntry : Type 0 where
  pub account_id : ℕ
  pub transaction_id : ℕ
  pub direction : Direction
  pub amount : ℕ
  pub currency : Currency
  pub reference : Option String

-- An idempotency key: a caller's, or f"reversal:{transaction.id}".
pub data TransactionKey : Type 0 where
  caller_key : String → TransactionKey
  reversal_key : ℕ → TransactionKey

pub record Transaction : Type 0 where
  pub id : ℕ
  pub transaction_type : TransactionType
  pub status : TransactionStatus
  pub origin_module : Option String
  pub account_id : Option ℕ
  pub money : Option Money
  pub reverses_transaction_id : Option ℕ
  pub idempotency_key : TransactionKey
  pub completed_at : Option ℕ
  pub business_reference : Option String
  pub provider_reference : Option String
  pub gateway_mode : Option String
  pub authorization_url : Option String
  pub access_code : Option String

pub record GatewayAccount : Type 0 where
  pub provider : String
  pub account_id : ℕ

pub record ExchangeRate : Type 0 where
  pub base_currency : Currency
  pub quote_currency : Currency
  pub rate : Decimal
  pub source : Option String
  pub valid_from : ℕ

pub record CurrencyConversion : Type 0 where
  pub account_id : ℕ
  pub source_transaction_id : ℕ
  pub target_transaction_id : ℕ
  pub source_money : Money
  pub target_money : Money
  pub rate : Decimal

pub record UserPhone : Type 0 where
  pub user_id : ℕ
  pub phone : String

pub record TransactionPin : Type 0 where
  pub account_id : ℕ
  pub pin_hash : String
  pub pin_salt : String
  pub failed_attempts : ℕ
  pub locked_until : Option ℕ

pub record PinRecoveryCode : Type 0 where
  pub account_id : ℕ
  pub code_hash : String
  pub consumed_at : Option ℕ

pub record ConsumedStepUpProof : Type 0 where
  pub jti : ℕ
  pub user_id : ℕ
  pub purpose : String
  pub expires_at : ℕ

pub record PinRecoveryAudit : Type 0 where
  pub account_id : ℕ
  pub actor_user_id : Option ℕ
  pub action : String
  pub reason : String
  pub recovery_codes_issued : ℕ

-- The payload of the event `payment.completed`.
pub record PaymentCompleted : Type 0 where
  pub transaction_id : ℕ
  pub transaction_type : TransactionType
  pub money : Money
  pub origin_module : Option String

pub record OutboxEvent : Type 0 where
  pub payload : PaymentCompleted
  pub is_published : Bool

-- The tables, the clock in seconds, the next identifier, and the events that went to the bus.
pub record Store : Type 0 where
  pub accounts : List Account
  pub transactions : List Transaction
  pub entries : List LedgerEntry
  pub gateway_accounts : List GatewayAccount
  pub exchange_rates : List ExchangeRate
  pub conversions : List CurrencyConversion
  pub phones : List UserPhone
  pub pins : List TransactionPin
  pub recovery_codes : List PinRecoveryCode
  pub consumed_proofs : List ConsumedStepUpProof
  pub recovery_audits : List PinRecoveryAudit
  pub outbox : List OutboxEvent
  pub published : List PaymentCompleted
  pub clock : ℕ
  pub next_id : ℕ
