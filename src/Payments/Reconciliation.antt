-- ===== src/Payments/Reconciliation.antt =====
-- payfund_app/modules/payments/application/reconciliation.py: `PaymentReconciliationUseCases`.
pub mod Matching
pub mod Rounds
pub mod Totals
mod Tests
use diddi_pay_backend.Prelude.{
  ℕ, ◌+◌, ◌-◌, Bool, not, ◌&&◌, ◌||◌, String, option_text_eq, to_text, Option, none, some, List, [],
  ◌∷◌, length, leb, ◌is◌, get_last?, if◌then◌else◌,
}
use diddi_pay_backend.Payments.Status.{
  PaymentIntentStatus, AttemptStatus, intent_enum, attempt_enum,
}
use diddi_pay_backend.Payments.Errors.{
  Result, ok, err, processor_routing_error, processor_call_uncertain,
}
use diddi_pay_backend.Payments.Entities.{PaymentIntent, PaymentAttempt}
use diddi_pay_backend.Payments.Payload.{Fields, Scalar, text, missing, reconciliation}
use diddi_pay_backend.Payments.Database.{Database, EventStatus, processed, failed, verification_key}
use diddi_pay_backend.Payments.Session.{
  Action, ◌>>=◌, ◌>>◌, pure, raise, lift, gets, utc_now, commit, when, branch, for_each,
}
use diddi_pay_backend.Payments.Ports.{PaymentProcessorPort, ProviderResult}
use diddi_pay_backend.Payments.Routing
use diddi_pay_backend.Payments.Accounting.{record_payment_success}
use diddi_pay_backend.Payments.Repositories.Intents
use diddi_pay_backend.Payments.Repositories.Attempts
use diddi_pay_backend.Payments.Repositories.Events
use diddi_pay_backend.Payments.Webhooks.{matches_money, fee_or_zero}
use diddi_pay_backend.Payments.Webhooks.Status.{apply_status}

pub record ReconciliationSummary : Type 0 where
  pub scanned : ℕ
  pub succeeded : ℕ
  pub failed : ℕ
  pub pending : ℕ
  pub mismatched : ℕ

abbrev pub one_succeeded : ReconciliationSummary → ReconciliationSummary
one_succeeded t = record t { succeeded = t.succeeded + 1 }

abbrev pub one_failed : ReconciliationSummary → ReconciliationSummary
one_failed t = record t { failed = t.failed + 1 }

abbrev pub one_pending : ReconciliationSummary → ReconciliationSummary
one_pending t = record t { pending = t.pending + 1 }

abbrev pub one_mismatched : ReconciliationSummary → ReconciliationSummary
one_mismatched t = record t { mismatched = t.mismatched + 1 }

-- The counter of a status that was applied.
abbrev pub count_status : AttemptStatus → ReconciliationSummary → ReconciliationSummary
count_status AttemptStatus.succeeded t = one_succeeded t
count_status AttemptStatus.failed t = one_failed t
count_status _ t = one_pending t

abbrev text_or_missing : Option String → Scalar
text_or_missing none = missing
text_or_missing (some s) = text s

abbrev because : String → Fields
because reason = ("reason", text reason) ∷ []

-- The amount of a success that is not that of the attempt.
abbrev pub disagrees : ProviderResult → PaymentAttempt → Bool
disagrees result attempt =
    (result.status is AttemptStatus.succeeded)
    && (not (option_text_eq (some result.provider_reference) attempt.provider_reference)
        || not (matches_money result.amount result.currency attempt.money))

-- `digest` is the SHA-256 of the JSON text of a dictionary.
module _ (digest : Fields → String) (has_outbox has_accounting : Bool) where
  -- `_log`
  unfoldable pub log : PaymentAttempt → EventStatus → Fields → Option String → Action (Unit {0})
  log attempt status payload reason = do
    now ← utc_now
    row ←
        Events.add attempt.processor (verification_key attempt.id now) "reconciliation.verify"
          (digest payload) payload
    Events.mark row status (some attempt.id) reason

  -- A round that only logs why it did nothing, with the counters after it.
  abbrev pub note :
      PaymentAttempt → Fields → String → ReconciliationSummary → Action ReconciliationSummary
  note attempt payload reason t = do log attempt failed payload (some reason); commit; pure t

  -- The writes of a round once the statuses have been applied.
  unfoldable pub record_verification :
      ProviderResult → Bool → PaymentIntent → PaymentAttempt → Action (Unit {0})
  record_verification result was_succeeded intent attempt = do
    let noted : PaymentAttempt = record attempt { provider_status = result.provider_status }
    Attempts.save noted
    Intents.save intent
    when ((result.status is AttemptStatus.succeeded) && not was_succeeded) (
        record_payment_success has_outbox has_accounting intent noted (reconciliation noted.id)
          (fee_or_zero result.fee))
    log noted processed
        (("provider_status", text_or_missing result.provider_status)
          ∷ ("outcome", text (to_text result.status))
          ∷ [])
        none

  -- From the result of the provider and the payment on.
  unfoldable pub apply_result :
      ProviderResult
      → PaymentAttempt
      → ReconciliationSummary
      → PaymentIntent
      → Action ReconciliationSummary
  apply_result result attempt t intent = do
    now ← utc_now
    latest ← gets (λ db. get_last? (Attempts.list_for_intent intent.id db))
    changed ← lift (apply_status now latest (some result.status) intent attempt)
    record_verification result (intent.status is PaymentIntentStatus.succeeded) changed.0 changed.1
    commit
    pure (count_status result.status t)

  abbrev pub with_intent :
      ProviderResult
      → PaymentAttempt
      → ReconciliationSummary
      → Option PaymentIntent
      → Action ReconciliationSummary
  with_intent result attempt t none =
      note attempt (because "intent_missing") "intent_missing" (one_failed t)
  with_intent result attempt t (some intent) =
      branch (disagrees result attempt)
        (note attempt (because "amount_or_currency_mismatch") "amount_or_currency_mismatch"
          (one_mismatched t))
        (apply_result result attempt t intent)

  abbrev pub with_result :
      PaymentAttempt → ReconciliationSummary → Result ProviderResult → Action ReconciliationSummary
  with_result attempt t (ok result) =
      gets (Intents.get attempt.payment_intent_id) >>= with_intent result attempt t
  with_result attempt t (err (processor_call_uncertain reference message)) =
      note attempt (("reason", text message) ∷ ("outcome", text "unknown") ∷ []) message
        (one_pending t)
  with_result attempt t (err e) = raise e

  abbrev pub with_processor :
      PaymentAttempt
      → ReconciliationSummary
      → Result PaymentProcessorPort
      → Action ReconciliationSummary
  with_processor attempt t (ok processor) =
      with_result attempt t (processor.verify_payment attempt.provider_reference)
  with_processor attempt t (err (processor_routing_error message)) =
      note attempt (("reason", text message) ∷ ("outcome", text "processor_unavailable") ∷ [])
        message (one_pending t)
  with_processor attempt t (err e) = raise e

  -- One round of the loop of `run`.
  unfoldable pub reconcile_attempt :
      Routing.ProcessorRegistry
      → PaymentAttempt
      → ReconciliationSummary
      → Action ReconciliationSummary
  reconcile_attempt registry attempt t =
      with_processor attempt t (Routing.get attempt.processor registry)

  abbrev pub summary_of : ℕ → ReconciliationSummary
  summary_of scanned = record {
    scanned = scanned;
    succeeded = 0;
    failed = 0;
    pending = 0;
    mismatched = 0;
  }

  -- No attempt is as old as the minimum age before the clock has reached it.
  abbrev pub candidates : ℕ → ℕ → ℕ → Database → List PaymentAttempt
  candidates now minimum_age_seconds limit db =
      if leb minimum_age_seconds now
      then Attempts.pending_for_reconciliation (now - minimum_age_seconds) limit db
      else []

  -- `run`
  unfoldable pub run : Routing.ProcessorRegistry → ℕ → ℕ → Action ReconciliationSummary
  run registry minimum_age_seconds limit = do
    now ← utc_now
    attempts ← gets (candidates now minimum_age_seconds limit)
    for_each attempts (summary_of (length attempts)) (reconcile_attempt registry)
