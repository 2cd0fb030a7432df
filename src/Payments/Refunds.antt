-- ===== src/Payments/Refunds.antt =====
-- payfund_app/modules/payments/application/refunds.py: `RefundUseCases.create`, cut at its commits.
pub mod Cover
pub mod Reserve
pub mod Execute
pub mod Safety
mod Tests
use diddi_pay_backend.Prelude.{
  ℕ, ◌+◌, Bool, true, not, ◌||◌, String, str_eq, Option, none, some, List, [], ◌∷◌, reverse,
  if◌then◌else◌, leb, ltb, ◌is◌, ◌is_in◌, find_row,
}
use diddi_pay_backend.Prelude.Int.{ℤ, pos, negsuc}
use diddi_pay_backend.Payments.Status.{
  PaymentIntentStatus, AttemptStatus, RefundStatus, intent_enum, attempt_enum, refund_enum,
}
use diddi_pay_backend.Payments.Errors.{
  Result, ok, err, payment_not_found, idempotency_conflict, payment_operation_conflict,
  processor_call_uncertain,
}
use diddi_pay_backend.Payments.Money.{Money, money, is_missing}
use diddi_pay_backend.Payments.Entities.{
  PaymentIntent, PaymentAttempt, Refund, apply_refund, transition_refund,
}
use diddi_pay_backend.Payments.Payload.{Fields, missing, text, number, uuid}
use diddi_pay_backend.Payments.Database.{RefundRecord}
use diddi_pay_backend.Payments.Session.{
  Action, ◌>>=◌, ◌>>◌, pure, raise, lift, gets, or_raise, raise_if, utc_now, fresh_id, commit, when,
  branch,
}
use diddi_pay_backend.Payments.Ports.{RefundResult}
use diddi_pay_backend.Payments.Routing
use diddi_pay_backend.Payments.Routing.{ProcessorRegistry}
use diddi_pay_backend.Payments.Accounting.{record_refund}
use diddi_pay_backend.Payments.Repositories.Intents
use diddi_pay_backend.Payments.Repositories.Attempts
use diddi_pay_backend.Payments.Repositories.Refunds

pub record CreateRefundCommand : Type 0 where
  pub client_id : String
  pub payment_intent_id : ℕ
  pub amount : ℤ
  pub idempotency_key : String
  pub reason : Option String

-- `text` or JSON's null
abbrev optional : Option String → Fields → Fields
optional none rest = ("reason", missing) ∷ rest
optional (some s) rest = ("reason", text s) ∷ rest

-- What `CreateRefundCommand.fingerprint` digests.
unfoldable pub fingerprint_fields : CreateRefundCommand → Fields
fingerprint_fields c =
    ("client_id", text c.client_id)
    ∷ ("payment_intent_id", uuid c.payment_intent_id)
    ∷ ("amount", number c.amount)
    ∷ optional c.reason []

-- The last attempt that succeeded.
unfoldable pub successful_attempt : List PaymentAttempt → Option PaymentAttempt
successful_attempt attempts =
    find_row (λ item. item.status is AttemptStatus.succeeded) (reverse attempts)

abbrev reference_of : Option String → Action String
reference_of none = raise payment_operation_conflict
reference_of (some r) = branch (is_missing (some r)) (raise payment_operation_conflict) (pure r)

-- `amount <= 0 or active_total + amount > captured`
abbrev pub exceeds : ℤ → ℕ → ℕ → Bool
exceeds (negsuc _) active_total captured = true
exceeds (pos amount) active_total captured = leb amount 0 || ltb captured (active_total + amount)

-- What the checks of `create` hand on.
pub record Reserved : Type 0 where
  pub intent : PaymentIntent
  pub attempt : PaymentAttempt
  pub provider_reference : String
  pub refund : Refund

abbrev is_foreign : String → PaymentIntent → Bool
is_foreign client_id intent = not (str_eq intent.client_id client_id)

-- The intent and the attempt that a refund is drawn on, behind the guards of `create`.
unfoldable pub refundable : CreateRefundCommand → Action (PaymentIntent × PaymentAttempt × String)
unfolding successful_attempt
refundable c = do
  intent ← or_raise (← gets (Intents.get c.payment_intent_id)) payment_not_found
  raise_if (is_foreign c.client_id intent) payment_not_found
  raise_if
      (not (
        intent.status
        is_in (PaymentIntentStatus.succeeded ∷ PaymentIntentStatus.partially_refunded ∷ [])))
      payment_operation_conflict
  attempts ← gets (Attempts.list_for_intent intent.id)
  attempt ← or_raise (successful_attempt attempts) payment_operation_conflict
  provider_reference ← reference_of attempt.provider_reference
  active_total ← gets (Refunds.total_active_for_intent intent.id)
  raise_if (exceeds c.amount active_total intent.money.amount) payment_operation_conflict
  pure (intent, attempt, provider_reference)

abbrev new_refund :
    CreateRefundCommand → String → PaymentIntent → PaymentAttempt → Money → ℕ → ℕ → Refund
new_refund c fingerprint intent attempt m id now = record {
  id = id;
  payment_intent_id = intent.id;
  payment_attempt_id = attempt.id;
  money = m;
  idempotency_key = c.idempotency_key;
  request_fingerprint = fingerprint;
  reason = c.reason;
  status = RefundStatus.pending;
  provider_reference = none;
  provider_status = none;
  created_at = now;
  updated_at = now;
}

-- The pending refund, committed before the call of the processor.
unfoldable pub enter :
    CreateRefundCommand → String → PaymentIntent × PaymentAttempt × String → Action Reserved
enter c fingerprint (intent, attempt, provider_reference) = do
  m ← lift (money c.amount intent.money.currency)
  id ← fresh_id
  now ← utc_now
  let refund : Refund = new_refund c fingerprint intent attempt m id now
  Refunds.add refund c.client_id attempt.processor
  commit
  pure (record {
    intent = intent;
    attempt = attempt;
    provider_reference = provider_reference;
    refund = refund;
  })

-- The part of `create` up to the commit before the call of the processor.
unfoldable pub reserve : CreateRefundCommand → String → Action Reserved
reserve c fingerprint = refundable c >>= enter c fingerprint

abbrev marked_unknown : Result Refund → Result Refund
marked_unknown (ok r) = ok (record r { provider_status = some "unknown" })
marked_unknown (err e) = err e

-- What the processor's answer does to the refund: an uncertain call is `processing`, any other
-- exception goes on.
unfoldable pub answered : ℕ → Result RefundResult → Refund → Result Refund
unfolding transition_refund
answered now (ok result) refund = transition_refund now result.status (record refund {
  provider_reference = result.provider_reference;
  provider_status = result.provider_status;
})
answered now (err (processor_call_uncertain _ _)) refund =
    marked_unknown (transition_refund now RefundStatus.processing refund)
answered now (err e) refund = err e

-- The effect on the payment of a refund that has succeeded.
unfoldable pub settle_refund : Bool → Reserved → Refund → Action (Unit {0})
settle_refund has_accounting r refund = do
  now ← utc_now
  intent ← lift (apply_refund now refund.money.amount r.intent)
  Intents.save intent
  when has_accounting (record_refund intent r.attempt refund)

-- The end of `create`: the effect of the answer, and the commit.
unfoldable pub conclude : Bool → Reserved → Refund → Action Refund
conclude has_accounting r refund = do
  when (refund.status is RefundStatus.succeeded) (settle_refund has_accounting r refund)
  Refunds.save refund
  commit
  pure refund

-- From the call of the processor on.
unfoldable pub execute : Bool → ProcessorRegistry → Reserved → Action Refund
execute has_accounting registry r = do
  processor ← lift (Routing.get r.attempt.processor registry)
  now ← utc_now
  refund ← lift (
      answered now
        (processor.refund_payment (record {
          refund_id = r.refund.id;
          provider_reference = r.provider_reference;
          money = r.refund.money;
          reason = r.refund.reason;
        }))
        r.refund)
  conclude has_accounting r refund

-- A replay of a key answers the refund on record, if the request is the same.
abbrev replay : RefundRecord → String → Action Refund
replay row fingerprint =
    branch (str_eq row.refund.request_fingerprint fingerprint) (pure row.refund)
      (raise idempotency_conflict)

-- `digest` is SHA-256 of the canonical JSON; `has_accounting` says whether accounting is wired.
module _ (digest : Fields → String) (registry : ProcessorRegistry) (has_accounting : Bool) where
  abbrev unless_found : CreateRefundCommand → String → Option RefundRecord → Action Refund
  unless_found c fingerprint (some row) = replay row fingerprint
  unless_found c fingerprint none = reserve c fingerprint >>= execute has_accounting registry

  -- `RefundUseCases.create`
  unfoldable pub create : CreateRefundCommand → Action Refund
  create c = do
    let fingerprint = digest (fingerprint_fields c)
    existing ← gets (Refunds.get_by_idempotency c.client_id c.idempotency_key)
    unless_found c fingerprint existing
