-- ===== src/Payments/Webhooks.antt =====
-- payfund_app/modules/payments/application/webhooks.py: `PaymentWebhookUseCases`.
mod Tests
pub mod Status
pub mod Captured
pub mod Frame
pub mod Settled
pub mod Duplicates
use diddi_pay_backend.Prelude.{
  ℕ, Bool, true, false, not, ◌&&◌, ◌||◌, String, str_eq, option_text_eq, is_empty, Option, none,
  some, [], ◌∷◌, List, ◌is◌, ◌is_in◌, ◌==◌, take_text, get_last?, if◌then◌else◌,
}
use diddi_pay_backend.Prelude.Int.{ℤ, pos, negsuc}
use diddi_pay_backend.Payments.Status.{
  PaymentIntentStatus, AttemptStatus, intent_enum, attempt_enum,
}
use diddi_pay_backend.Payments.Errors.{Error, Result, ok, err, invalid_state_transition}
use diddi_pay_backend.Payments.Money.{Money}
use diddi_pay_backend.Payments.Entities.{PaymentIntent, PaymentAttempt}
use diddi_pay_backend.Payments.Payload.{provider_event}
use diddi_pay_backend.Payments.Database.{
  Database, ProviderEventRecord, EventStatus, processed, ignored, failed, received, provider_key,
}
use diddi_pay_backend.Payments.Session.{
  Action, ◌>>=◌, ◌>>◌, pure, raise, lift, gets, utc_now, commit, when, branch,
}
use diddi_pay_backend.Payments.Ports.{PaymentProcessorPort, ProviderEvent}
use diddi_pay_backend.Payments.Accounting.{record_payment_success}
use diddi_pay_backend.Payments.Repositories.Intents
use diddi_pay_backend.Payments.Repositories.Attempts
use diddi_pay_backend.Payments.Repositories.Events
use diddi_pay_backend.Payments.Webhooks.Status.{apply_status}

pub data OutcomeStatus : Type 0 where
  duplicate ignored_event failed_event processed_event : OutcomeStatus

pub record WebhookOutcome : Type 0 where
  pub status : OutcomeStatus
  pub event_key : String
  pub payment_intent_id : Option ℕ

abbrev pub outcome : OutcomeStatus → ProviderEvent → Option ℕ → WebhookOutcome
outcome status event intent_id = record {
  status = status;
  event_key = event.event_key;
  payment_intent_id = intent_id;
}

-- `amount != captured`, where the amount may be missing.
abbrev pub amount_is : Option ℤ → ℕ → Bool
amount_is none n = false
amount_is (some (pos a)) n = a == n
amount_is (some (negsuc _)) n = false

-- The provider's amount and currency are those of the attempt.
abbrev pub matches_money : Option ℤ → Option String → Money → Bool
matches_money amount currency m =
    amount_is amount m.amount && option_text_eq currency (some m.currency)

abbrev pub is_success : Option AttemptStatus → Bool
is_success none = false
is_success (some s) = s is AttemptStatus.succeeded

abbrev pub fee_or_zero : Option ℤ → ℤ
fee_or_zero none = pos 0
fee_or_zero (some fee) = fee

abbrev is_settled : EventStatus → Bool
is_settled processed = true
is_settled ignored = true
is_settled failed = false
is_settled received = false

-- The inbox row of an event that has been dealt with.
abbrev pub is_duplicate : Option ProviderEventRecord → Bool
is_duplicate none = false
is_duplicate (some row) = is_settled row.status

-- The inbox row, written and committed before the financial state changes if it is new.
abbrev inbox_row :
    Option ProviderEventRecord → String → String → ProviderEvent → Action ProviderEventRecord
inbox_row (some row) name payload_hash event = pure row
inbox_row none name payload_hash event = do
  row ← Events.add name (provider_key event.event_key) event.event_type payload_hash event.payload
  commit
  pure row

abbrev close :
    ProviderEventRecord
    → EventStatus
    → Option ℕ
    → Option String
    → WebhookOutcome
    → Action WebhookOutcome
close row status attempt_id message result = do
  Events.mark row status attempt_id message
  commit
  pure result

module _ (has_outbox has_accounting : Bool) where
  -- The writes of `process` after the statuses have been applied.
  unfoldable pub record_acceptance :
      ProviderEvent
      → ProviderEventRecord
      → Bool
      → PaymentIntent
      → PaymentAttempt
      → Action (Unit {0})
  record_acceptance event row was_succeeded intent attempt = do
    let noted : PaymentAttempt = record attempt { provider_status = event.payload_status }
    Attempts.save noted
    Intents.save intent
    Events.mark row processed (some attempt.id) none
    when (is_success event.status && not was_succeeded) (
        record_payment_success has_outbox has_accounting intent noted
          (provider_event event.event_key) (fee_or_zero event.fee))

  unfoldable pub accept :
      ProviderEvent
      → ProviderEventRecord
      → Bool
      → PaymentIntent
      → PaymentAttempt
      → Action WebhookOutcome
  accept event row was_succeeded intent attempt = do
    record_acceptance event row was_succeeded intent attempt
    commit
    pure (outcome processed_event event (some intent.id))

  -- The `try` around `_apply_status`.
  abbrev settle :
      ProviderEvent
      → ProviderEventRecord
      → PaymentIntent
      → PaymentAttempt
      → Result (PaymentIntent × PaymentAttempt)
      → Action WebhookOutcome
  settle event row intent attempt (ok (intent', attempt')) =
      accept event row (intent.status is PaymentIntentStatus.succeeded) intent' attempt'
  settle event row intent attempt (err (invalid_state_transition message)) =
      close row failed (some attempt.id) (some (take_text 255 message))
        (outcome failed_event event (some intent.id))
  settle event row intent attempt (err e) = raise e

  -- From the attempt and its payment on.
  unfoldable pub confirm :
      ProviderEvent → ProviderEventRecord → PaymentIntent → PaymentAttempt → Action WebhookOutcome
  confirm event row intent attempt = do
    now ← utc_now
    latest ← gets (λ db. get_last? (Attempts.list_for_intent intent.id db))
    branch
        (is_success event.status && not (matches_money event.amount event.currency attempt.money))
        (close row failed (some attempt.id) (some "provider amount or currency mismatch")
          (outcome failed_event event (some intent.id)))
        (settle event row intent attempt (apply_status now latest event.status intent attempt))

  abbrev for_intent :
      ProviderEvent
      → ProviderEventRecord
      → PaymentAttempt
      → Option PaymentIntent
      → Action WebhookOutcome
  for_intent event row attempt none =
      close row failed (some attempt.id) (some "payment intent missing")
        (outcome failed_event event none)
  for_intent event row attempt (some intent) = confirm event row intent attempt

  abbrev for_attempt :
      ProviderEvent → ProviderEventRecord → Option PaymentAttempt → Action WebhookOutcome
  for_attempt event row none =
      close row ignored none (some "unknown provider reference") (outcome ignored_event event none)
  for_attempt event row (some attempt) =
      gets (Intents.get attempt.payment_intent_id) >>= for_intent event row attempt

  abbrev for_reference :
      String → ProviderEvent → ProviderEventRecord → Option String → Action WebhookOutcome
  for_reference name event row none =
      close row ignored none (some "missing provider reference") (outcome ignored_event event none)
  for_reference name event row (some reference) =
      branch (is_empty reference)
        (close row ignored none (some "missing provider reference")
          (outcome ignored_event event none))
        (gets (Attempts.get_by_provider_reference name reference) >>= for_attempt event row)

  -- From the parsed event on; `payload_hash` is the digest of the raw body.
  unfoldable pub handle : String → String → ProviderEvent → Action WebhookOutcome
  handle name payload_hash event = do
    known ← gets (Events.get name (provider_key event.event_key))
    branch (is_duplicate known) (pure (outcome duplicate event none)) (
        inbox_row known name payload_hash event >>= λ row.
        for_reference name event row event.provider_reference)

  -- `PaymentWebhookUseCases.process`; `sha256` digests the raw body.
  unfoldable pub process :
      (String → String) → PaymentProcessorPort → String → String → Action WebhookOutcome
  process sha256 processor raw_body signature = do
    event ← lift (processor.parse_webhook raw_body signature)
    handle processor.name (sha256 raw_body) event
