-- ===== src/Payments/Ports.antt =====
-- payfund_app/modules/payments/application/ports.py: requests, results and the processor's interface.
-- A processor is a parameter of the model: each call answers a result or an exception.
use diddi_pay_backend.Prelude.{
  ℕ, ◌≡◌, Bool, true, false, not, ◌&&◌, ◌||◌, String, upper, is_empty, mem_text, Option, none, some,
  List, [], ◌∷◌, StrEnum, arith, ◌is_in◌, if◌then◌else◌,
}
use diddi_pay_backend.Prelude.Int.{ℤ}
use diddi_pay_backend.Payments.Status.{AttemptStatus, RefundStatus, PayoutStatus}
use diddi_pay_backend.Payments.Errors.{Result}
use diddi_pay_backend.Payments.Money.{Money, NextAction}
use diddi_pay_backend.Payments.Entities.{Destination}
use diddi_pay_backend.Payments.Payload.{Fields}

pub data PaymentDirection : Type 0 where
  collection refund payout : PaymentDirection

abbrev direction_rank : PaymentDirection → ℕ
direction_rank collection = 0
direction_rank refund = 1
direction_rank payout = 2

abbrev direction_value : PaymentDirection → String
direction_value collection = "collection"
direction_value refund = "refund"
direction_value payout = "payout"

pub direction_rank_injective :
    (a b : PaymentDirection) → direction_rank a ≡ direction_rank b → a ≡ b
direction_rank_injective a b h = ground arith

instance abbrev pub direction_enum : StrEnum PaymentDirection
direction_enum = record {
  rank = direction_rank;
  value = direction_value;
  rank_injective = direction_rank_injective;
}

pub record ProcessorCapabilities : Type 0 where
  pub currencies : List String
  pub directions : List PaymentDirection
  pub channels : List String
  pub networks : List String

abbrev pub is_nonempty : List String → Bool
is_nonempty [] = false
is_nonempty (_ ∷ _) = true

-- `wanted and declared and wanted not in declared`
abbrev pub excludes : List String → Option String → Bool
excludes declared none = false
excludes declared (some wanted) =
    not (is_empty wanted) && is_nonempty declared && not (mem_text wanted declared)

-- `ProcessorCapabilities.supports`
unfoldable pub supports :
    ProcessorCapabilities → String → PaymentDirection → Option String → Option String → Bool
supports c currency direction channel network =
    if not (mem_text (upper currency) c.currencies) || not (direction is_in c.directions)
    then false
    else if excludes c.channels channel
    then false
    else not (excludes c.networks network)

pub record InitializePaymentRequest : Type 0 where
  pub payment_intent_id : ℕ
  pub attempt_id : ℕ
  pub business_reference : String
  pub money : Money
  pub idempotency_key : String
  pub channel : Option String
  pub network : Option String
  pub customer_email : Option String
  pub customer_phone : Option String
  pub callback_url : Option String
  pub metadata : String

pub record ProviderResult : Type 0 where
  pub provider_reference : String
  pub status : AttemptStatus
  pub provider_status : Option String
  pub action : Option NextAction
  pub failure_code : Option String
  pub failure_message : Option String
  pub amount : Option ℤ
  pub currency : Option String
  pub fee : Option ℤ

pub record ProviderEvent : Type 0 where
  pub event_key : String
  pub event_type : String
  pub provider_reference : Option String
  pub status : Option AttemptStatus
  pub amount : Option ℤ
  pub currency : Option String
  pub fee : Option ℤ
  -- `sanitized_payload`, and its entry "status"
  pub payload : Fields
  pub payload_status : Option String

pub record CallbackTarget : Type 0 where
  pub url : String
  pub secret : String

pub record RefundRequest : Type 0 where
  pub refund_id : ℕ
  pub provider_reference : String
  pub money : Money
  pub reason : Option String

pub record RefundResult : Type 0 where
  pub provider_reference : Option String
  pub status : RefundStatus
  pub provider_status : Option String
  pub failure_code : Option String
  pub failure_message : Option String

pub record PayoutRequest : Type 0 where
  pub payout_id : ℕ
  pub business_reference : String
  pub beneficiary_reference : String
  pub money : Money
  pub idempotency_key : String
  pub destination : Option Destination
  pub metadata : String

pub record PayoutResult : Type 0 where
  pub provider_reference : Option String
  pub status : PayoutStatus
  pub provider_status : Option String
  pub failure_code : Option String
  pub failure_message : Option String

-- `PaymentProcessorPort`. `parse_webhook` reads the raw body and one header, the signature.
pub record PaymentProcessorPort : Type 0 where
  pub name : String
  pub capabilities : ProcessorCapabilities
  pub initialize_payment : InitializePaymentRequest → Result ProviderResult
  pub verify_payment : Option String → Result ProviderResult
  pub parse_webhook : String → String → Result ProviderEvent
  pub refund_payment : RefundRequest → Result RefundResult
  pub create_payout : PayoutRequest → Result PayoutResult
  pub verify_payout : Option String → Result PayoutResult
