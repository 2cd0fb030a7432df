-- ===== src/Payments/Webhooks/Captured.antt =====
-- What `_apply_status` of payfund_app/modules/payments/application/webhooks.py does to a payment.
use diddi_pay_backend.Prelude.{ℕ, ◌≡◌, ◌≢◌, Option, none, some, true, [], ◌∷◌, ◌is_in◌, arith, ◌⊎◌}
use diddi_pay_backend.Payments.Status.{
  PaymentIntentStatus, AttemptStatus, intent_enum, attempt_enum,
}
use diddi_pay_backend.Payments.Errors.{ok}
use diddi_pay_backend.Payments.Entities.{PaymentIntent, PaymentAttempt}
use diddi_pay_backend.Payments.Webhooks.Status.{apply_status}

abbrev pub HoldsMoney : PaymentIntent → Type 0
HoldsMoney intent =
    intent.status is_in (
      PaymentIntentStatus.succeeded ∷ PaymentIntentStatus.partially_refunded
      ∷ PaymentIntentStatus.refunded ∷ [])
    ≡ true

-- A payment that was captured is never changed by a provider's status, whatever the status and the
-- attempt: it is kept as it is, or the status is refused.
pub apply_status-HoldsMoney :
    (now : ℕ) (latest : Option PaymentAttempt) (status : Option AttemptStatus)
    (intent : PaymentIntent) (attempt : PaymentAttempt) (intent' : PaymentIntent)
    (attempt' : PaymentAttempt)
    → HoldsMoney intent
    → apply_status now latest status intent attempt ≡ ok (intent', attempt')
    → intent' ≡ intent
unfolding apply_status
apply_status-HoldsMoney now latest none intent attempt intent' attempt' h e = ground arith
apply_status-HoldsMoney now latest (some AttemptStatus.succeeded) intent attempt intent' attempt' h
      e =
    ground arith
apply_status-HoldsMoney now latest (some AttemptStatus.failed) intent attempt intent' attempt' h e =
    ground arith
apply_status-HoldsMoney now latest (some AttemptStatus.processing) intent attempt intent' attempt' h
      e =
    ground arith
apply_status-HoldsMoney now latest (some _) intent attempt intent' attempt' h e = ground arith

-- A payment becomes captured only by a success of the provider for an attempt that had not
-- succeeded, and then the attempt has succeeded too.
pub apply_status_captures :
    (now : ℕ) (latest : Option PaymentAttempt) (status : Option AttemptStatus)
    (intent : PaymentIntent) (attempt : PaymentAttempt) (intent' : PaymentIntent)
    (attempt' : PaymentAttempt)
    → apply_status now latest status intent attempt ≡ ok (intent', attempt')
    → HoldsMoney intent'
    → HoldsMoney intent
      ⊎ ((status ≡ some AttemptStatus.succeeded)
          × (attempt.status ≢ AttemptStatus.succeeded)
          × (attempt'.status ≡ AttemptStatus.succeeded)
          × (intent'.status ≡ PaymentIntentStatus.succeeded))
unfolding apply_status
apply_status_captures now latest none intent attempt intent' attempt' e h = ground arith
apply_status_captures now latest (some AttemptStatus.succeeded) intent attempt intent' attempt' e
      h =
    ground arith
apply_status_captures now latest (some AttemptStatus.failed) intent attempt intent' attempt' e h =
    ground arith
apply_status_captures now latest (some AttemptStatus.processing) intent attempt intent' attempt' e
      h =
    ground arith
apply_status_captures now latest (some _) intent attempt intent' attempt' e h = ground arith
