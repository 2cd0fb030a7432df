-- ===== src/Payments/Entities.antt =====
-- The entities of payfund_app/modules/payments/domain/entities.py. A method that mutates its object
-- returns the new record; `now` is what `utc_now()` reads, in seconds. Identifiers (UUIDs) are
-- numbers, and a JSON dictionary that the code only passes on is its text.
pub mod RefundedAmount
pub mod Final
use Prim.Native.String.{◌++◌ as ◌^◌}
use diddi_pay_backend.Prelude.{
  ℕ, ◌+◌, String, Bool, not, ◌&&◌, ◌||◌, Option, [], ◌∷◌, if◌then◌else◌, ltb, ◌==◌, ◌is◌, ◌is_in◌,
  to_text,
}
use diddi_pay_backend.Payments.Status.{
  PaymentIntentStatus, AttemptStatus, RefundStatus, PayoutStatus, intent_enum, attempt_enum,
  refund_enum, payout_enum,
}
use diddi_pay_backend.Payments.Transitions.{
  intent_transitions, attempt_transitions, refund_transitions,
}
use diddi_pay_backend.Payments.Errors.{
  Result, ok, err, ◌>>◌, raise_if, invalid_amount, invalid_state_transition,
}
use diddi_pay_backend.Payments.Money.{Money, NextAction, is_missing}

-- `str(InvalidStateTransition(entity, current, target))`
unfoldable pub transition_message : String → String → String → String
transition_message entity current target =
    entity ^ " cannot transition from " ^ current ^ " to " ^ target

pub record PaymentIntent : Type 0 where
  pub id : ℕ
  pub client_id : String
  pub business_reference : String
  pub money : Money
  pub idempotency_key : String
  pub request_fingerprint : String
  pub payer_user_id : Option ℕ
  pub payee_user_id : Option ℕ
  pub description : Option String
  pub metadata : String
  pub status : PaymentIntentStatus
  pub refunded_amount : ℕ
  pub created_at : ℕ
  pub updated_at : ℕ

-- `PaymentIntent.transition_to`
unfoldable pub transition_intent : ℕ → PaymentIntentStatus → PaymentIntent → Result PaymentIntent
transition_intent now target intent =
    if target is intent.status
    then ok intent
    else if target is_in intent_transitions intent.status
    then ok (record intent { status = target; updated_at = now })
    else err (
        invalid_state_transition
          (transition_message "payment_intent" (to_text intent.status) (to_text target)))

-- `PaymentIntent.apply_refund`
unfoldable pub apply_refund : ℕ → ℕ → PaymentIntent → Result PaymentIntent
unfolding transition_intent
apply_refund now amount intent = do
  raise_if
      (not (
        intent.status
        is_in (PaymentIntentStatus.succeeded ∷ PaymentIntentStatus.partially_refunded ∷ [])))
      (invalid_state_transition (
        transition_message "payment_intent" (to_text intent.status)
          (to_text PaymentIntentStatus.refunded)))
  raise_if (amount == 0 || ltb intent.money.amount (intent.refunded_amount + amount)) invalid_amount
  let refunded = intent.refunded_amount + amount
  transition_intent now
      (if refunded == intent.money.amount
        then PaymentIntentStatus.refunded
        else PaymentIntentStatus.partially_refunded)
      (record intent { refunded_amount = refunded })

-- `PaymentIntent.is_final`
unfoldable pub is_final : PaymentIntent → Bool
is_final intent =
    intent.status is_in (PaymentIntentStatus.cancelled ∷ PaymentIntentStatus.refunded ∷ [])

pub record PaymentAttempt : Type 0 where
  pub id : ℕ
  pub payment_intent_id : ℕ
  pub processor : String
  pub money : Money
  pub attempt_number : ℕ
  pub channel : Option String
  pub network : Option String
  pub status : AttemptStatus
  pub provider_reference : Option String
  pub provider_status : Option String
  pub action : Option NextAction
  pub failure_code : Option String
  pub failure_message : Option String
  pub created_at : ℕ
  pub updated_at : ℕ

-- `PaymentAttempt.transition_to`
unfoldable pub transition_attempt : ℕ → AttemptStatus → PaymentAttempt → Result PaymentAttempt
transition_attempt now target attempt =
    if target is attempt.status
    then ok attempt
    else if target is_in attempt_transitions attempt.status
    then ok (record attempt { status = target; updated_at = now })
    else err (
        invalid_state_transition
          (transition_message "payment_attempt" (to_text attempt.status) (to_text target)))

pub record Refund : Type 0 where
  pub id : ℕ
  pub payment_intent_id : ℕ
  pub payment_attempt_id : ℕ
  pub money : Money
  pub idempotency_key : String
  pub request_fingerprint : String
  pub reason : Option String
  pub status : RefundStatus
  pub provider_reference : Option String
  pub provider_status : Option String
  pub created_at : ℕ
  pub updated_at : ℕ

-- `Refund.transition_to`
unfoldable pub transition_refund : ℕ → RefundStatus → Refund → Result Refund
transition_refund now target refund =
    if target is refund.status
    then ok refund
    else if target is_in refund_transitions refund.status
    then ok (record refund { status = target; updated_at = now })
    else err (
        invalid_state_transition
          (transition_message "refund" (to_text refund.status) (to_text target)))

-- `{"type": ..., "phone": ..., "network": ...}`
pub record Destination : Type 0 where
  pub kind : Option String
  pub phone : Option String
  pub network : Option String

pub record Payout : Type 0 where
  pub id : ℕ
  pub client_id : String
  pub business_reference : String
  pub beneficiary_reference : String
  pub money : Money
  pub idempotency_key : String
  pub request_fingerprint : String
  pub processor : String
  pub metadata : String
  pub destination : Option Destination
  pub status : PayoutStatus
  pub provider_reference : Option String
  pub provider_status : Option String
  pub failure_code : Option String
  pub failure_message : Option String
  pub created_at : ℕ
  pub updated_at : ℕ

-- `a or b`, for optional texts
abbrev pub or_else : Option String → Option String → Option String
or_else a b = if is_missing a then b else a

-- `Payout.apply_provider_status`
unfoldable pub apply_provider_status :
    ℕ
    → PayoutStatus
    → Option String
    → Option String
    → Option String
    → Option String
    → Payout
    → Result Payout
apply_provider_status now status provider_reference provider_status failure_code failure_message
      payout =
    do
      raise_if
          (payout.status is_in (PayoutStatus.succeeded ∷ PayoutStatus.failed ∷ [])
            && not (status is payout.status))
          (invalid_state_transition
            (transition_message "payout" (to_text payout.status) (to_text status)))
      ok (record payout {
        status = status;
        provider_reference = or_else provider_reference payout.provider_reference;
        provider_status = provider_status;
        failure_code = failure_code;
        failure_message = failure_message;
        updated_at = now;
      })
