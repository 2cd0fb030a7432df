-- ===== src/Payments/Webhooks/Status.antt =====
-- `PaymentWebhookUseCases._apply_status` of payfund_app/modules/payments/application/webhooks.py. Both
-- objects are mutated; they come back as a pair. `latest` is the last attempt of the payment.
use diddi_pay_backend.Prelude.{
  ℕ, Bool, ◌&&◌, Option, none, some, [], ◌∷◌, ◌is◌, ◌is_in◌, ◌==◌, if◌then◌else◌,
}
use diddi_pay_backend.Payments.Status.{
  PaymentIntentStatus, AttemptStatus, intent_enum, attempt_enum,
}
use diddi_pay_backend.Payments.Errors.{Result, ok, err, ◌>>=◌, other_error}
use diddi_pay_backend.Payments.Entities.{
  PaymentIntent, PaymentAttempt, transition_intent, transition_attempt,
}

abbrev unchanged : PaymentIntent → PaymentAttempt → Result (PaymentIntent × PaymentAttempt)
unchanged intent attempt = ok (intent, attempt)

-- A failed payment goes through `processing` before it succeeds.
abbrev reopened : ℕ → PaymentIntent → Result PaymentIntent
reopened now intent =
    if intent.status is PaymentIntentStatus.failed
    then transition_intent now PaymentIntentStatus.processing intent
    else ok intent

abbrev completed : ℕ → PaymentIntent → Result PaymentIntent
completed now intent =
    if intent.status is PaymentIntentStatus.succeeded
    then ok intent
    else transition_intent now PaymentIntentStatus.succeeded intent

abbrev succeed : ℕ → PaymentIntent → PaymentAttempt → Result (PaymentIntent × PaymentAttempt)
succeed now intent attempt = do
  attempt' ← transition_attempt now AttemptStatus.succeeded attempt
  open_intent ← reopened now intent
  intent' ← completed now open_intent
  ok (intent', attempt')

-- `latest.id == attempt.id`; `[-1]` of no attempts raises.
abbrev is_latest : Option PaymentAttempt → PaymentAttempt → Result Bool
is_latest none attempt = err (other_error "list index out of range")
is_latest (some latest) attempt = ok (latest.id == attempt.id)

abbrev fail :
    ℕ
    → Option PaymentAttempt
    → PaymentIntent
    → PaymentAttempt
    → Result (PaymentIntent × PaymentAttempt)
fail now latest intent attempt =
    if attempt.status
      is_in (AttemptStatus.succeeded ∷ AttemptStatus.failed ∷ AttemptStatus.cancelled ∷ [])
    then ok (intent, attempt)
    else (do
      attempt' ← transition_attempt now AttemptStatus.failed attempt
      last ← is_latest latest attempt
      intent' ←
          (if last
              && intent.status
                is_in (PaymentIntentStatus.processing ∷ PaymentIntentStatus.requires_action ∷ [])
            then transition_intent now PaymentIntentStatus.failed intent
            else ok intent)
      ok (intent', attempt'))

abbrev progress : ℕ → PaymentIntent → PaymentAttempt → Result (PaymentIntent × PaymentAttempt)
progress now intent attempt =
    if attempt.status
      is_in (AttemptStatus.pending ∷ AttemptStatus.requires_action ∷ AttemptStatus.unknown ∷ [])
    then (do
      attempt' ← transition_attempt now AttemptStatus.processing attempt
      intent' ←
          (if intent.status is PaymentIntentStatus.requires_action
            then transition_intent now PaymentIntentStatus.processing intent
            else ok intent)
      ok (intent', attempt'))
    else ok (intent, attempt)

abbrev by_status :
    ℕ
    → Option PaymentAttempt
    → AttemptStatus
    → PaymentIntent
    → PaymentAttempt
    → Result (PaymentIntent × PaymentAttempt)
by_status now latest AttemptStatus.succeeded intent attempt = succeed now intent attempt
by_status now latest AttemptStatus.failed intent attempt = fail now latest intent attempt
by_status now latest AttemptStatus.processing intent attempt = progress now intent attempt
by_status now latest _ intent attempt = ok (intent, attempt)

unfoldable pub apply_status :
    ℕ
    → Option PaymentAttempt
    → Option AttemptStatus
    → PaymentIntent
    → PaymentAttempt
    → Result (PaymentIntent × PaymentAttempt)
unfolding transition_intent transition_attempt
apply_status now latest none intent attempt = ok (intent, attempt)
apply_status now latest (some status) intent attempt =
    if status is attempt.status
    then ok (intent, attempt)
    else by_status now latest status intent attempt
