-- ===== src/Payments/Webhooks/Tests.antt =====
-- Webhooks at concrete inputs.
use diddi_pay_backend.Prelude.{◌≢◌, ◌≡◌, ◌≢◌, refl, arith, true, none, some, [], Option, ◌⊎◌}
use diddi_pay_backend.Prelude.Int.{pos}
use diddi_pay_backend.Payments.Status.{PaymentIntentStatus, AttemptStatus}
use diddi_pay_backend.Payments.Errors.{ok}
use diddi_pay_backend.Payments.Entities.{
  PaymentIntent, PaymentAttempt, transition_intent, transition_attempt,
}
use diddi_pay_backend.Payments.Session.{Session, begin}
use diddi_pay_backend.Payments.Ports.{ProviderEvent}
use diddi_pay_backend.Payments.Samples.{
  paid, paid_intent, paid_attempt, waiting_intent, waiting_attempt,
}
use diddi_pay_backend.Payments.Webhooks.{
  handle, confirm, accept, record_acceptance, outcome, processed_event, failed_event, duplicate,
}
use diddi_pay_backend.Payments.Webhooks.Duplicates.{handle-handle}
use diddi_pay_backend.Payments.Repositories.Events
use diddi_pay_backend.Payments.Repositories.Attempts
use diddi_pay_backend.Payments.Repositories.Intents as IntentRows
use diddi_pay_backend.Payments.Webhooks.Status.{apply_status}
use diddi_pay_backend.Payments.Webhooks.Captured.{
  HoldsMoney, apply_status-HoldsMoney, apply_status_captures,
}
use diddi_pay_backend.Payments.Webhooks.Frame.{Guarded, handle-Guarded}

abbrev event : ProviderEvent
event = record {
  event_key = "event-1";
  event_type = "charge.success";
  provider_reference = some "ref-1";
  status = some AttemptStatus.succeeded;
  amount = some (pos 500);
  currency = some "XOF";
  fee = none;
  payload = [];
  payload_status = some "success";
}

handle-Guarded_example : Guarded paid (handle true true "paystack" "hash" event (begin paid 30 5))
handle-Guarded_example = handle-Guarded true true "paystack" "hash" event paid 30 5

status_again :
    apply_status 30 (some paid_attempt) (some AttemptStatus.succeeded) paid_intent paid_attempt
    ≡ ok (paid_intent, paid_attempt)
unfolding apply_status
status_again = refl

-- The first success of a payment.
abbrev paid_now : PaymentIntent
paid_now = record paid_intent { updated_at = 30 }

abbrev attempt_now : PaymentAttempt
attempt_now = record paid_attempt { updated_at = 30 }

first_success :
    apply_status 30
      (some waiting_attempt)
      (some AttemptStatus.succeeded)
      waiting_intent
      waiting_attempt
    ≡ ok (paid_now, attempt_now)
unfolding apply_status transition_intent transition_attempt
first_success = refl

apply_status_captures_example :
    HoldsMoney waiting_intent
    ⊎ ((Path (Option AttemptStatus) (some AttemptStatus.succeeded) (some AttemptStatus.succeeded))
        × (waiting_attempt.status ≢ AttemptStatus.succeeded)
        × (attempt_now.status ≡ AttemptStatus.succeeded)
        × (paid_now.status ≡ PaymentIntentStatus.succeeded))
apply_status_captures_example =
    apply_status_captures 30 (some waiting_attempt) (some AttemptStatus.succeeded) waiting_intent
      waiting_attempt paid_now attempt_now first_success refl

apply_status-HoldsMoney_example : paid_intent ≡ paid_intent
apply_status-HoldsMoney_example =
    apply_status-HoldsMoney 30 (some paid_attempt) (some AttemptStatus.succeeded) paid_intent
      paid_attempt paid_intent paid_attempt refl status_again

abbrev handled : Session
handled = (handle true true "paystack" "hash" event (begin paid 30 5)).1

first_answer :
    (handle true true "paystack" "hash" event (begin paid 30 5)).0
    ≡ ok (outcome processed_event event (some 1))
unfolding handle confirm accept record_acceptance apply_status Events.get Events.add Events.mark
    Attempts.get_by_provider_reference Attempts.list_for_intent Attempts.get Attempts.save
    IntentRows.get IntentRows.save
first_answer = refl

first_delivery :
    handle true true "paystack" "hash" event (begin paid 30 5)
    ≡ (ok (outcome processed_event event (some 1)), handled)
first_delivery = rw first_answer refl

not_failed : (outcome processed_event event (some 1)).status ≢ failed_event
not_failed h = ground arith

handle-handle_example :
    handle true true "paystack" "hash" event (begin handled.committed 40 9)
    ≡ (ok (outcome duplicate event none), begin handled.committed 40 9)
handle-handle_example =
    handle-handle true true "paystack" "hash" event paid 30 5
      (outcome processed_event event (some 1)) handled first_delivery not_failed 40 9
