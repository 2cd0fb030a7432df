-- ===== src/Payments/Refunds/Safety.antt =====
-- `RefundUseCases.create` as a whole (payfund_app/modules/payments/application/refunds.py).
use diddi_pay_backend.Prelude.{
  ℕ, ◌+◌, ◌≤◌, ◌≡◌, refl, sym, ap, ◌∙◌, subst, Bool, true, false, String, str_eq, some, List, [],
  ◌∷◌, ◌++◌, ◌is◌, find_row, update_rows, Option-cases, Bool-cases, inl, inr,
}
use diddi_pay_backend.Prelude.Rows
use diddi_pay_backend.Payments.Status.{RefundStatus, refund_enum}
use diddi_pay_backend.Payments.Errors.{Result, ok, err}
use diddi_pay_backend.Payments.Money.{Money}
use diddi_pay_backend.Payments.Entities.{PaymentIntent, Refund, apply_refund}
use diddi_pay_backend.Payments.Payload.{Fields}
use diddi_pay_backend.Payments.Database.{Database, RefundRecord}
use diddi_pay_backend.Payments.Session.{Session, continue, begin}
use diddi_pay_backend.Payments.Routing.{ProcessorRegistry}
use diddi_pay_backend.Payments.Repositories.Intents
use diddi_pay_backend.Payments.Repositories.Refunds
use diddi_pay_backend.Payments.Repositories.Laws.{intent_key}
use diddi_pay_backend.Payments.Refunds.{
  CreateRefundCommand, Reserved, fingerprint_fields, reserve, execute, replay, create,
}
use diddi_pay_backend.Payments.Refunds.Cover.{
  IsCovered, Covers, refund_key, unsettled-Covers, settled-Covers,
}
use diddi_pay_backend.Payments.Refunds.Reserve.{Reserves, reserve-Reserves, with_refund}
use diddi_pay_backend.Payments.Refunds.Execute.{Executes, execute-Executes}

Covers-mono :
    (m n : ℕ) (intents : List PaymentIntent) (refunds : List RefundRecord)
    → m ≤ n
    → Covers m intents refunds
    → Covers n intents refunds
Covers-mono m n intents refunds le h = record {
  fresh = Rows.AllBelow-mono refund_key m n refunds le h.fresh;
  recorded = h.recorded;
  agreed = h.agreed;
  within = h.within;
}

-- What is committed at the end of a call is covered.
abbrev pub EndsCovered : {A : Type 0} → Result A × Session → Type 0
EndsCovered (r, s) = IsCovered s.next_id s.committed

module _ (c : CreateRefundCommand) (fingerprint : String) (d : Database) (now n : ℕ)
    (h : IsCovered n d) where
  abbrev row_of : Reserved → RefundRecord
  row_of r = record { refund = r.refund; client_id = c.client_id; processor = r.attempt.processor }

  abbrev after : Reserved → Session
  after r = record {
    db = with_refund d r.refund c.client_id r.attempt.processor;
    committed = with_refund d r.refund c.client_id r.attempt.processor;
    clock = now;
    next_id = n + 1;
  }

  module _ (r : Reserved) (g : Reserves c fingerprint (begin d now n) (ok r, after r)) where
    found : find_row (Rows.has_key intent_key r.intent.id) d.intents ≡ some r.intent
    unfolding Intents.get
    found =
        subst (λ k. find_row (Rows.has_key intent_key k) d.intents ≡ some r.intent) (sym g.1) g.0

    fresh : r.refund.id ≡ n
    fresh = ap (λ x. x.id) g.5

    drawn : r.refund.payment_intent_id ≡ r.intent.id
    drawn = ap (λ x. x.payment_intent_id) g.5

    waiting : r.refund.status is RefundStatus.succeeded ≡ false
    waiting = ap (λ (x : Refund). x.status is RefundStatus.succeeded) g.5

    module _ (refund : Refund) where
      -- The answered refund, not succeeded and succeeded.
      unsettled :
          refund.status is RefundStatus.succeeded ≡ false
          → Covers (n + 1) d.intents (d.refunds ++ Refunds.saved refund (row_of r) ∷ [])
      unfolding Refunds.total_active_for_intent
      unsettled =
          unsettled-Covers n d.intents d.refunds r.intent (Refunds.saved refund (row_of r)) h found
            g.3 fresh drawn

      settled :
          (intent : PaymentIntent)
          → refund.money ≡ r.refund.money
          → apply_refund now refund.money.amount r.intent ≡ ok intent
          → refund.status is RefundStatus.succeeded ≡ true
          → Covers
              (n + 1)
              (update_rows (Rows.has_key intent_key intent.id) (Intents.saved intent) d.intents)
              (d.refunds ++ Refunds.saved refund (row_of r) ∷ [])
      unfolding Refunds.total_active_for_intent
      settled intent m applied =
          settled-Covers n d.intents d.refunds r.intent (Refunds.saved refund (row_of r)) h found
            g.3 fresh drawn now intent
            (ap (λ (x : Money). apply_refund now x.amount r.intent) (sym m) ∙ applied)

    pending-Covers : IsCovered (n + 1) (after r).db
    unfolding Refunds.total_active_for_intent
    pending-Covers =
        unsettled-Covers n d.intents d.refunds r.intent (row_of r) h found g.3 fresh drawn waiting

    ends-covered :
        (o : Result Refund × Session) → Executes d.refunds (row_of r) r (after r) o → EndsCovered o
    ends-covered (err e, s') x =
        rw x.0 (Covers-mono (n + 1) s'.next_id d.intents _ x.1 pending-Covers)
    ends-covered (ok refund, s') (e, m, (a, b, k, l, inl (w, same))) =
        rw (b, k, same) (Covers-mono (n + 1) s'.next_id d.intents _ l (unsettled refund w))
    ends-covered (ok refund, s') (e, m, (a, b, k, l, inr (intent, paid, applied, upd))) =
        rw (b, k, upd) (Covers-mono (n + 1) s'.next_id _ _ l (settled refund intent m applied paid))

module _ (digest : Fields → String) (registry : ProcessorRegistry) (has_accounting : Bool)
    (c : CreateRefundCommand) (d : Database) (now n : ℕ) where
  reserved-EndsCovered :
      (fingerprint : String)
      → IsCovered n d
      → (o : Result Reserved × Session) → Reserves c fingerprint (begin d now n) o
      → EndsCovered (continue o.0 (execute has_accounting registry) o.1)
  reserved-EndsCovered fingerprint h (err e, s') g =
      rw g.1 (Covers-mono n s'.next_id d.intents d.refunds g.2 h)
  reserved-EndsCovered fingerprint h (ok r, s') g = rw g.6 (
      ends-covered c fingerprint d now n h r g'
        (execute has_accounting registry r (after c fingerprint d now n h r))
        (execute-Executes has_accounting registry d.refunds (row_of c fingerprint d now n h r) r
          (after c fingerprint d now n h r) refl (rw (fresh c fingerprint d now n h r g') h.fresh)
          refl (found c fingerprint d now n h r g')))
    where
      g' : Reserves c fingerprint (begin d now n) (ok r, after c fingerprint d now n h r)
      g' = subst (λ s. Reserves c fingerprint (begin d now n) (ok r, s)) g.6 g

  -- From a database whose refunds are covered, whatever the command, the registered processors and
  -- their answers, the database that a call of `create` leaves committed has its refunds covered:
  -- of every payment the refunds that did not fail stay within its amount, the refunded amount is
  -- the sum of those that succeeded, and the status is the one that belongs to it.
  pub create-IsCovered :
      IsCovered n d → EndsCovered (create digest registry has_accounting c (begin d now n))
  unfolding create
  create-IsCovered h =
      elim (Option-cases (Refunds.get_by_idempotency c.client_id c.idempotency_key d)) [
        | inl absent ↦ rw absent (
            reserved-EndsCovered (digest (fingerprint_fields c)) h
              (reserve c (digest (fingerprint_fields c)) (begin d now n))
              (reserve-Reserves c (digest (fingerprint_fields c)) (begin d now n)))
        | inr (row, e) ↦ rw e (replay-EndsCovered row (digest (fingerprint_fields c)) h)
      ]
    where
      replay-EndsCovered :
          (row : RefundRecord) (fingerprint : String)
          → IsCovered n d
          → EndsCovered (replay row fingerprint (begin d now n))
      replay-EndsCovered row fingerprint k =
          elim (Bool-cases (str_eq row.refund.request_fingerprint fingerprint)) [
            | inl same ↦ rw same k
            | inr other ↦ rw other k
          ]
