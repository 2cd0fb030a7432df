-- ===== src/Payments/Refunds/Reserve.antt =====
-- The guards of `create` and the pending refund (payfund_app/modules/payments/application/refunds.py).
use diddi_pay_backend.Prelude.{
  ◌+◌, ◌≤◌, ◌<◌, ◌≡◌, true, false, String, some, [], ◌∷◌, ◌++◌, ◌is_in◌, arith, Option-cases, inl,
  inr,
}
use diddi_pay_backend.Payments.Status.{PaymentIntentStatus, intent_enum}
use diddi_pay_backend.Payments.Errors.{Result, ok, err, Result-cases}
use diddi_pay_backend.Payments.Money.{money}
use diddi_pay_backend.Payments.Money.Validation.{money_lem}
use diddi_pay_backend.Payments.Entities.{PaymentIntent, PaymentAttempt, Refund}
use diddi_pay_backend.Payments.Database.{Database}
use diddi_pay_backend.Payments.Session.{Session, continue}
use diddi_pay_backend.Payments.Repositories.Intents
use diddi_pay_backend.Payments.Repositories.Refunds
use diddi_pay_backend.Payments.Repositories.Laws.{get_intent-id}
use diddi_pay_backend.Payments.Refunds.{
  CreateRefundCommand, Reserved, refundable, reserve, exceeds, new_refund, enter,
}

-- A refundable payment is on record, captured, and has room for the amount; the session is untouched.
abbrev pub IsRefundable :
    CreateRefundCommand
    → Session
    → Result (PaymentIntent × PaymentAttempt × String) × Session
    → Type 0
IsRefundable c s (err e, s') = s' ≡ s
IsRefundable c s (ok (intent, attempt, reference), s') =
    (s' ≡ s)
    × (Intents.get c.payment_intent_id s.db ≡ some intent)
    × (intent.id ≡ c.payment_intent_id)
    × (intent.status
          is_in (PaymentIntentStatus.succeeded ∷ PaymentIntentStatus.partially_refunded ∷ [])
        ≡ true)
    × (exceeds c.amount (Refunds.total_active_for_intent intent.id s.db) intent.money.amount
        ≡ false)

pub refundable-IsRefundable :
    (c : CreateRefundCommand) (s : Session) → IsRefundable c s (refundable c s)
unfolding refundable
refundable-IsRefundable c s = elim (Option-cases (Intents.get c.payment_intent_id s.db)) [
  | inl absent ↦ ground arith
  | inr (intent, e) ↦ ground (arith, get_intent-id c.payment_intent_id s.db intent e)
]

-- The database with one more refund.
abbrev pub with_refund : Database → Refund → String → String → Database
with_refund db refund client_id processor = record db {
  refunds =
      db.refunds ++ record { refund = refund; client_id = client_id; processor = processor } ∷ [];
}

-- What the guards leave: nothing written, or one pending refund within the payment, committed.
abbrev pub Reserves : CreateRefundCommand → String → Session → Result Reserved × Session → Type 0
Reserves c fingerprint s (err e, s') =
    (s'.db ≡ s.db) × (s'.committed ≡ s.committed) × (s.next_id ≤ s'.next_id)
Reserves c fingerprint s (ok r, s') =
    (Intents.get c.payment_intent_id s.db ≡ some r.intent)
    × (r.intent.id ≡ c.payment_intent_id)
    × (r.intent.status
          is_in (PaymentIntentStatus.succeeded ∷ PaymentIntentStatus.partially_refunded ∷ [])
        ≡ true)
    × (Refunds.total_active_for_intent r.intent.id s.db + r.refund.money.amount
        ≤ r.intent.money.amount)
    × (0 < r.refund.money.amount)
    × (r.refund ≡ new_refund c fingerprint r.intent r.attempt r.refund.money s.next_id s.clock)
    × (s' ≡ record s {
      db = with_refund s.db r.refund c.client_id r.attempt.processor;
      committed = with_refund s.db r.refund c.client_id r.attempt.processor;
      next_id = s.next_id + 1;
    })

pub enter-Reserves :
    (c : CreateRefundCommand) (fingerprint : String) (s : Session) (intent : PaymentIntent)
    (attempt : PaymentAttempt) (reference : String)
    → IsRefundable c s (ok (intent, attempt, reference), s)
    → Reserves c fingerprint s (enter c fingerprint (intent, attempt, reference) s)
unfolding enter Refunds.add
enter-Reserves c fingerprint s intent attempt reference h =
    elim (Result-cases (money c.amount intent.money.currency)) [
      | inl (m, e) ↦ ground (arith, money_lem c.amount intent.money.currency m e)
      | inr (x, e) ↦ ground arith
    ]

-- Either a guard refuses the refund and nothing is written, or the refund is within the payment.
pub reserve-Reserves :
    (c : CreateRefundCommand) (fingerprint : String) (s : Session)
    → Reserves c fingerprint s (reserve c fingerprint s)
unfolding reserve
reserve-Reserves c fingerprint s = go (refundable c s) (refundable-IsRefundable c s)
  where
    go :
        (o : Result (PaymentIntent × PaymentAttempt × String) × Session)
        → IsRefundable c s o
        → Reserves c fingerprint s (continue o.0 (enter c fingerprint) o.1)
    go (ok (intent, attempt, reference), s') h =
        rw h.0 (enter-Reserves c fingerprint s intent attempt reference (rw h.0 at h))
    go (err e, s') h = ground arith
