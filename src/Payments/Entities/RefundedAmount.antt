-- ===== src/Payments/Entities/RefundedAmount.antt =====
-- The refunded amount of a payment and its status (payfund_app/modules/payments/domain/entities.py).
use diddi_pay_backend.Prelude.{ℕ, ◌+◌, ◌≤◌, ◌<◌, ◌≡◌, true, [], ◌∷◌, ◌is_in◌, arith, inl, inr}
use diddi_pay_backend.Payments.Status.{PaymentIntentStatus, intent_enum}
use diddi_pay_backend.Payments.Errors.{Error, ok, err, Result-cases}
use diddi_pay_backend.Payments.Entities.{PaymentIntent, apply_refund}

-- The refunded amount that belongs to a status.
abbrev pub Agrees : PaymentIntentStatus → ℕ → ℕ → Type 0
Agrees PaymentIntentStatus.refunded refunded amount = refunded ≡ amount
Agrees PaymentIntentStatus.partially_refunded refunded amount = (0 < refunded) × (refunded < amount)
Agrees _ refunded amount = refunded ≡ 0

abbrev pub IsCaptured : PaymentIntent → Type 0
IsCaptured intent =
    intent.status
      is_in (PaymentIntentStatus.succeeded ∷ PaymentIntentStatus.partially_refunded ∷ [])
    ≡ true

-- A refund that is applied adds its amount, stays within the payment, and leaves the status that
-- belongs to the new amount.
pub apply_refund_ok :
    (now amount : ℕ) (intent intent' : PaymentIntent)
    → apply_refund now amount intent ≡ ok intent'
    → (0 < amount)
      × (intent'.refunded_amount ≡ intent.refunded_amount + amount)
      × (intent'.refunded_amount ≤ intent.money.amount)
      × Agrees intent'.status intent'.refunded_amount intent.money.amount
      × (intent'.money ≡ intent.money)
      × (intent'.id ≡ intent.id)
unfolding apply_refund
apply_refund_ok now amount intent intent' h = ground arith

never_refused :
    (now amount : ℕ) (intent : PaymentIntent) (e : Error)
    → IsCaptured intent
    → 0 < amount
    → intent.refunded_amount + amount ≤ intent.money.amount
    → apply_refund now amount intent ≡ err e
    → ⊥
unfolding apply_refund
never_refused now amount intent e captured p fits failed = ground arith

-- On a captured payment every positive amount within what is left is accepted: it is added to the
-- refunded amount, the status belongs to the new amount, and the money and the identifier stay.
pub apply_refund_total :
    (now amount : ℕ) (intent : PaymentIntent)
    → IsCaptured intent
    → 0 < amount
    → intent.refunded_amount + amount ≤ intent.money.amount
    → (intent' : PaymentIntent) × (apply_refund now amount intent ≡ ok intent')
      × (intent'.refunded_amount ≡ intent.refunded_amount + amount)
      × Agrees intent'.status intent'.refunded_amount intent.money.amount
      × (intent'.money ≡ intent.money)
      × (intent'.id ≡ intent.id)
apply_refund_total now amount intent captured p fits =
    elim (Result-cases (apply_refund now amount intent)) [
      | inl (intent', done) ↦
          let (some_amount, adds, within, agrees, same, id) =
            apply_refund_ok now amount intent intent' done in
          (intent', done, adds, agrees, same, id)
      | inr (e, failed) ↦ absurd (never_refused now amount intent e captured p fits failed)
    ]
