-- ===== src/Payments/Database.antt =====
-- The tables of payfund_app/modules/payments/infra/models.py. Rows stand in the order of insertion,
-- which is that of `created_at`. Timestamps are seconds.
use diddi_pay_backend.Prelude.{ℕ, String, Option, List}
use diddi_pay_backend.Payments.Entities.{PaymentIntent, PaymentAttempt, Refund, Payout}
use diddi_pay_backend.Payments.Payload.{EventReference, Fields}

pub data EventStatus : Type 0 where
  received processed ignored failed : EventStatus

-- The key of an inbox row: a provider's own key, or that of one verification of an attempt,
-- f"reconciliation:{attempt.id}:{now}".
pub data EventKey : Type 0 where
  provider_key : String → EventKey
  verification_key : ℕ → ℕ → EventKey

pub record ProviderEventRecord : Type 0 where
  pub id : ℕ
  pub processor : String
  pub event_key : EventKey
  pub event_type : String
  pub payload_hash : String
  pub payload : Fields
  pub status : EventStatus
  pub payment_attempt_id : Option ℕ
  pub error_message : Option String
  pub processed_at : Option ℕ

pub record RefundRecord : Type 0 where
  pub refund : Refund
  pub client_id : String
  pub processor : String

pub data OutboxStatus : Type 0 where
  pending delivering delivered dead_letter : OutboxStatus

pub record PaymentOutboxRecord : Type 0 where
  pub id : ℕ
  pub client_id : String
  pub event_type : String
  pub aggregate_id : ℕ
  pub payload : Fields
  pub status : OutboxStatus
  pub attempts : ℕ
  pub last_error : Option String
  pub next_attempt_at : ℕ
  pub delivered_at : Option ℕ
  pub locked_at : Option ℕ
  pub created_at : ℕ

pub data JournalType : Type 0 where
  capture processor_fee refund settlement payout : JournalType

-- The accounts of the financial ledger, which the source writes as prefixed texts.
pub data LedgerAccount : Type 0 where
  processor_receivable module_payable processor_balance : String → LedgerAccount
  processor_fee_expense bank_cash : LedgerAccount

pub data EntryDirection : Type 0 where
  debit credit : EntryDirection

pub record FinancialJournalRecord : Type 0 where
  pub id : ℕ
  pub payment_intent_id : Option ℕ
  pub payout_id : Option ℕ
  pub event_type : JournalType
  pub event_reference : EventReference
  pub amount : ℕ
  pub currency : String

pub record FinancialEntryRecord : Type 0 where
  pub journal_id : ℕ
  pub account : LedgerAccount
  pub direction : EntryDirection
  pub amount : ℕ
  pub currency : String

pub record Database : Type 0 where
  pub intents : List PaymentIntent
  pub attempts : List PaymentAttempt
  pub events : List ProviderEventRecord
  pub refunds : List RefundRecord
  pub outbox : List PaymentOutboxRecord
  pub payouts : List Payout
  pub journals : List FinancialJournalRecord
  pub entries : List FinancialEntryRecord
