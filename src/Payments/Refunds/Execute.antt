-- ===== src/Payments/Refunds/Execute.antt =====
-- What the processor's answer to a refund leaves on record
-- (payfund_app/modules/payments/application/refunds.py).
use diddi_pay_backend.Prelude.{
  ℕ, ◌≤◌, ◌≡◌, refl, Bool, true, false, some, List, [], ◌∷◌, ◌++◌, ◌is◌, arith, find_row,
  update_rows, Bool-cases, inl, inr, ◌⊎◌, ◌∙◌, sym,
}
use diddi_pay_backend.Prelude.Rows
use diddi_pay_backend.Payments.Status.{RefundStatus, refund_enum}
use diddi_pay_backend.Payments.Errors.{Error, Result, ok, err, Result-cases}
use diddi_pay_backend.Payments.Entities.{PaymentIntent, Refund, apply_refund}
use diddi_pay_backend.Payments.Entities.RefundedAmount.{apply_refund_ok}
use diddi_pay_backend.Payments.Database.{RefundRecord}
use diddi_pay_backend.Payments.Session.{Session, continue, pure, commit, ◌>>◌}
use diddi_pay_backend.Payments.Ports.{RefundRequest, RefundResult}
use diddi_pay_backend.Payments.Routing
use diddi_pay_backend.Payments.Routing.{ProcessorRegistry}
use diddi_pay_backend.Payments.Accounting.Frame.{record_refund-KeepsPayments}
use diddi_pay_backend.Payments.Repositories.Intents
use diddi_pay_backend.Payments.Repositories.Refunds
use diddi_pay_backend.Payments.Repositories.Laws.{intent_key}
use diddi_pay_backend.Payments.Refunds.Cover.{refund_key}
use diddi_pay_backend.Payments.Refunds.{Reserved, answered, settle_refund, conclude, execute}

-- An answer changes the status and the provider's fields of a pending refund, and nothing else.
pub answered_ok :
    (now : ℕ) (answer : Result RefundResult) (refund refund' : Refund)
    → answered now answer refund ≡ ok refund'
    → (refund'.id ≡ refund.id)
      × (refund'.payment_intent_id ≡ refund.payment_intent_id)
      × (refund'.money ≡ refund.money)
      × (refund'.idempotency_key ≡ refund.idempotency_key)
      × (refund'.request_fingerprint ≡ refund.request_fingerprint)
unfolding answered
answered_ok now answer refund refund' h = ground arith

-- The session after the effect of a refund that has succeeded.
abbrev pub Settles : Session → PaymentIntent → Result (Unit {0}) × Session → Type 0
Settles s intent (r, s') =
    (r ≡ ok tt)
    × (s'.db.intents
        ≡ update_rows (Rows.has_key intent_key intent.id) (Intents.saved intent) s.db.intents)
    × (s'.db.refunds ≡ s.db.refunds)
    × (s'.committed ≡ s.committed)
    × (s.next_id ≤ s'.next_id)
    × (s'.clock ≡ s.clock)

abbrev with_intent : Session → PaymentIntent → Session
with_intent s intent = record s {
  db = record s.db {
    intents = update_rows (Rows.has_key intent_key intent.id) (Intents.saved intent) s.db.intents;
  };
}

pub settle_refund-Settles :
    (has_accounting : Bool) (r : Reserved) (refund : Refund) (s : Session) (intent : PaymentIntent)
    → apply_refund s.clock refund.money.amount r.intent ≡ ok intent
    → find_row (Rows.has_key intent_key r.intent.id) s.db.intents ≡ some r.intent
    → Settles s intent (settle_refund has_accounting r refund s)
unfolding settle_refund Intents.save Intents.get
settle_refund-Settles has_accounting r refund s intent applied found = ground (
  arith,
  apply_refund_ok s.clock refund.money.amount r.intent intent applied,
  record_refund-KeepsPayments intent r.attempt refund (with_intent s intent),
)

settle_refund_err :
    (has_accounting : Bool) (r : Reserved) (refund : Refund) (s : Session) (e : Error)
    → apply_refund s.clock refund.money.amount r.intent ≡ err e
    → settle_refund has_accounting r refund s ≡ (err e, s)
unfolding settle_refund
settle_refund_err has_accounting r refund s e failed = ground arith

-- The request that `execute` sends.
abbrev pub request_of : Reserved → RefundRequest
request_of r = record {
  refund_id = r.refund.id;
  provider_reference = r.provider_reference;
  money = r.refund.money;
  reason = r.refund.reason;
}

-- The intents after a refund: updated if it has succeeded.
abbrev pub IntentsAfter : Session → Reserved → Refund → List PaymentIntent → Type 0
IntentsAfter s r refund after =
    ((refund.status is RefundStatus.succeeded ≡ false) × (after ≡ s.db.intents))
    ⊎ (intent : PaymentIntent) × (refund.status is RefundStatus.succeeded ≡ true)
      × (apply_refund s.clock refund.money.amount r.intent ≡ ok intent)
      × (after
          ≡ update_rows (Rows.has_key intent_key intent.id) (Intents.saved intent) s.db.intents)

-- What `conclude` leaves of a session whose last refund is the reserved one.
abbrev pub Concludes :
    List RefundRecord
    → RefundRecord
    → Reserved
    → Refund
    → Session
    → Result Refund × Session
    → Type 0
Concludes others row r refund s (err e, s') =
    (s'.committed ≡ s.committed) × (s.next_id ≤ s'.next_id)
Concludes others row r refund s (ok answer, s') =
    (answer ≡ refund)
    × (s'.committed ≡ s'.db)
    × (s'.db.refunds ≡ others ++ Refunds.saved refund row ∷ [])
    × (s.next_id ≤ s'.next_id)
    × IntentsAfter s r refund s'.db.intents

module _ (others : List RefundRecord) (row : RefundRecord) (refund : Refund)
    (fresh : Rows.AllBelow refund_key refund.id others) (same : row.refund.id ≡ refund.id) where
  -- Saving the last refund, and the commit.
  save_last :
      (s : Session)
      → s.db.refunds ≡ others ++ row ∷ []
      → (Refunds.save refund >> (commit >> pure refund)) s ≡ (
        ok refund,
        record s {
          db = record s.db { refunds = others ++ Refunds.saved refund row ∷ [] };
          committed = record s.db { refunds = others ++ Refunds.saved refund row ∷ [] };
        },
      )
  unfolding Refunds.save
  save_last s last = ground (
    arith,
    Rows.find_row-append_last refund_key refund.id others row fresh same,
    Rows.update_rows-append_last refund_key (Refunds.saved refund) refund.id others row fresh same,
  )

  conclude-Concludes :
      (has_accounting : Bool) (r : Reserved) (s : Session)
      → s.db.refunds ≡ others ++ row ∷ []
      → find_row (Rows.has_key intent_key r.intent.id) s.db.intents ≡ some r.intent
      → Concludes others row r refund s (conclude has_accounting r refund s)
  unfolding conclude
  conclude-Concludes has_accounting r s last found =
      elim (Bool-cases (refund.status is RefundStatus.succeeded)) [
        | inl paid ↦ elim (Result-cases (apply_refund s.clock refund.money.amount r.intent)) [
          | inl (intent, applied) ↦ rw paid (
              settled intent paid applied (settle_refund has_accounting r refund s)
                (settle_refund-Settles has_accounting r refund s intent applied found))
          | inr (x, failed) ↦
              rw (paid, settle_refund_err has_accounting r refund s x failed) (refl, omega arith)
        ]
        | inr waiting ↦
            rw (waiting, save_last s last) (refl, refl, refl, omega arith, inl (waiting, refl))
      ]
    where
      settled :
          (intent : PaymentIntent)
          → refund.status is RefundStatus.succeeded ≡ true
          → apply_refund s.clock refund.money.amount r.intent ≡ ok intent
          → (o : Result (Unit {0}) × Session) → Settles s intent o
          → Concludes others row r refund s
              (continue o.0 (λ _. Refunds.save refund >> (commit >> pure refund)) o.1)
      settled intent paid applied (ok u, s') h =
          rw (save_last s' (h.2 ∙ last)) (refl, refl, refl, h.4, inr (intent, paid, applied, h.1))
      settled intent paid applied (err e, s') h = cc

-- What `execute` leaves of a session whose last refund is the reserved one: nothing that is committed,
-- or the answered refund in the place of the reserved one, with its effect on the intent.
abbrev pub Executes :
    List RefundRecord → RefundRecord → Reserved → Session → Result Refund × Session → Type 0
Executes others row r s (err e, s') = (s'.committed ≡ s.committed) × (s.next_id ≤ s'.next_id)
Executes others row r s (ok refund, s') =
    (refund.id ≡ r.refund.id)
    × (refund.money ≡ r.refund.money)
    × Concludes others row r refund s (ok refund, s')

module _ (has_accounting : Bool) (registry : ProcessorRegistry) (others : List RefundRecord)
    (row : RefundRecord) (r : Reserved) (s : Session) (last : s.db.refunds ≡ others ++ row ∷ [])
    (fresh : Rows.AllBelow refund_key r.refund.id others) (same : row.refund.id ≡ r.refund.id)
    (found : find_row (Rows.has_key intent_key r.intent.id) s.db.intents ≡ some r.intent) where
  concluded :
      (refund : Refund) (o : Result Refund × Session)
      → refund.id ≡ r.refund.id
      → refund.money ≡ r.refund.money
      → Concludes others row r refund s o
      → Executes others row r s o
  concluded refund (ok answer, s') e m h = rw h.0 (e, m, (refl, h.1, h.2, h.3, h.4))
  concluded refund (err x, s') e m h = h

  pub execute-Executes : Executes others row r s (execute has_accounting registry r s)
  unfolding execute
  execute-Executes = elim (Result-cases (Routing.get r.attempt.processor registry)) [
    | inl (p, e) ↦
        rw e (elim (Result-cases (answered s.clock (p.refund_payment (request_of r)) r.refund)) [
          | inl (refund, a) ↦
              let facts = answered_ok s.clock (p.refund_payment (request_of r)) r.refund refund a in
              rw a (
                concluded refund (conclude has_accounting r refund s) facts.0 facts.2 (
                  conclude-Concludes others row refund (rw facts.0 fresh) (same ∙ sym facts.0)
                    has_accounting r s last found))
          | inr (x, a) ↦ rw a (refl, omega arith)
        ])
    | inr (x, e) ↦ rw e (refl, omega arith)
  ]
