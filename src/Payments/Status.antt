-- ===== src/Payments/Status.antt =====
-- The statuses of payfund_app/modules/payments/domain/entities.py.
use diddi_pay_backend.Prelude.{ℕ, ◌≡◌, String, StrEnum, arith}

pub data PaymentIntentStatus : Type 0 where
  requires_action processing succeeded failed cancelled : PaymentIntentStatus
  partially_refunded refunded : PaymentIntentStatus

pub data AttemptStatus : Type 0 where
  pending requires_action processing succeeded failed cancelled unknown : AttemptStatus

pub data RefundStatus : Type 0 where
  pending processing succeeded failed : RefundStatus

pub data PayoutStatus : Type 0 where
  pending processing succeeded failed disputed : PayoutStatus

abbrev intent_rank : PaymentIntentStatus → ℕ
intent_rank PaymentIntentStatus.requires_action = 0
intent_rank PaymentIntentStatus.processing = 1
intent_rank PaymentIntentStatus.succeeded = 2
intent_rank PaymentIntentStatus.failed = 3
intent_rank PaymentIntentStatus.cancelled = 4
intent_rank PaymentIntentStatus.partially_refunded = 5
intent_rank PaymentIntentStatus.refunded = 6

abbrev intent_value : PaymentIntentStatus → String
intent_value PaymentIntentStatus.requires_action = "requires_action"
intent_value PaymentIntentStatus.processing = "processing"
intent_value PaymentIntentStatus.succeeded = "succeeded"
intent_value PaymentIntentStatus.failed = "failed"
intent_value PaymentIntentStatus.cancelled = "cancelled"
intent_value PaymentIntentStatus.partially_refunded = "partially_refunded"
intent_value PaymentIntentStatus.refunded = "refunded"

pub intent_rank_injective : (a b : PaymentIntentStatus) → intent_rank a ≡ intent_rank b → a ≡ b
intent_rank_injective a b h = ground arith

instance abbrev pub intent_enum : StrEnum PaymentIntentStatus
intent_enum = record {
  rank = intent_rank;
  value = intent_value;
  rank_injective = intent_rank_injective;
}

abbrev attempt_rank : AttemptStatus → ℕ
attempt_rank AttemptStatus.pending = 0
attempt_rank AttemptStatus.requires_action = 1
attempt_rank AttemptStatus.processing = 2
attempt_rank AttemptStatus.succeeded = 3
attempt_rank AttemptStatus.failed = 4
attempt_rank AttemptStatus.cancelled = 5
attempt_rank AttemptStatus.unknown = 6

abbrev attempt_value : AttemptStatus → String
attempt_value AttemptStatus.pending = "pending"
attempt_value AttemptStatus.requires_action = "requires_action"
attempt_value AttemptStatus.processing = "processing"
attempt_value AttemptStatus.succeeded = "succeeded"
attempt_value AttemptStatus.failed = "failed"
attempt_value AttemptStatus.cancelled = "cancelled"
attempt_value AttemptStatus.unknown = "unknown"

pub attempt_rank_injective : (a b : AttemptStatus) → attempt_rank a ≡ attempt_rank b → a ≡ b
attempt_rank_injective a b h = ground arith

instance abbrev pub attempt_enum : StrEnum AttemptStatus
attempt_enum = record {
  rank = attempt_rank;
  value = attempt_value;
  rank_injective = attempt_rank_injective;
}

abbrev refund_rank : RefundStatus → ℕ
refund_rank RefundStatus.pending = 0
refund_rank RefundStatus.processing = 1
refund_rank RefundStatus.succeeded = 2
refund_rank RefundStatus.failed = 3

abbrev refund_value : RefundStatus → String
refund_value RefundStatus.pending = "pending"
refund_value RefundStatus.processing = "processing"
refund_value RefundStatus.succeeded = "succeeded"
refund_value RefundStatus.failed = "failed"

pub refund_rank_injective : (a b : RefundStatus) → refund_rank a ≡ refund_rank b → a ≡ b
refund_rank_injective a b h = ground arith

instance abbrev pub refund_enum : StrEnum RefundStatus
refund_enum = record {
  rank = refund_rank;
  value = refund_value;
  rank_injective = refund_rank_injective;
}

abbrev payout_rank : PayoutStatus → ℕ
payout_rank PayoutStatus.pending = 0
payout_rank PayoutStatus.processing = 1
payout_rank PayoutStatus.succeeded = 2
payout_rank PayoutStatus.failed = 3
payout_rank PayoutStatus.disputed = 4

abbrev payout_value : PayoutStatus → String
payout_value PayoutStatus.pending = "pending"
payout_value PayoutStatus.processing = "processing"
payout_value PayoutStatus.succeeded = "succeeded"
payout_value PayoutStatus.failed = "failed"
payout_value PayoutStatus.disputed = "disputed"

pub payout_rank_injective : (a b : PayoutStatus) → payout_rank a ≡ payout_rank b → a ≡ b
payout_rank_injective a b h = ground arith

instance abbrev pub payout_enum : StrEnum PayoutStatus
payout_enum = record {
  rank = payout_rank;
  value = payout_value;
  rank_injective = payout_rank_injective;
}
