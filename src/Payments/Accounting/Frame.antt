-- ===== src/Payments/Accounting/Frame.antt =====
-- What the accounting policies of payfund_app/modules/payments/application/accounting.py leave alone.
use diddi_pay_backend.Prelude.{
  ℕ, String, Option-cases, inl, inr, ◌≤◌, ◌≡◌, refl, arith, zero, suc, Bool, true, false,
}
use diddi_pay_backend.Prelude.Int.{ℤ, pos, negsuc}
use diddi_pay_backend.Payments.Errors.{Result, ok}
use diddi_pay_backend.Payments.Entities.{PaymentIntent, PaymentAttempt, Refund}
use diddi_pay_backend.Payments.Payload.{EventReference}
use diddi_pay_backend.Payments.Database.{
  JournalType, LedgerAccount, FinancialJournalRecord, capture, processor_receivable, module_payable,
}
use diddi_pay_backend.Payments.Session.{Session}
use diddi_pay_backend.Payments.Session.Keeps.{KeepsCommitted}
use diddi_pay_backend.Payments.Repositories.Ledger
use diddi_pay_backend.Payments.Repositories.Outbox
use diddi_pay_backend.Payments.Accounting.{
  record_refund, record_capture, record_payment_success, post_fee, announce,
}

-- A call that does not raise and writes only journals, entries and outbox rows.
pub record KeepsPayments (s : Session) {A : Type 0} (o : Result A × Session) : Type 0 where
  pub intents : o.1.db.intents ≡ s.db.intents
  pub attempts : o.1.db.attempts ≡ s.db.attempts
  pub refunds : o.1.db.refunds ≡ s.db.refunds
  pub payouts : o.1.db.payouts ≡ s.db.payouts
  pub events : o.1.db.events ≡ s.db.events
  pub committed : o.1.committed ≡ s.committed
  pub clock : o.1.clock ≡ s.clock
  pub next_id : s.next_id ≤ o.1.next_id

pub record_refund-KeepsPayments :
    (intent : PaymentIntent) (attempt : PaymentAttempt) (r : Refund) (s : Session)
    → ((record_refund intent attempt r s).0 ≡ ok tt)
      × KeepsPayments s (record_refund intent attempt r s)
unfolding record_refund Ledger.post
record_refund-KeepsPayments intent attempt r s = ground arith

post_fee-KeepsPayments :
    (fee : ℤ) (intent : PaymentIntent) (attempt : PaymentAttempt) (event : EventReference)
    (s : Session)
    → ((post_fee fee intent attempt event s).0 ≡ ok tt)
      × KeepsPayments s (post_fee fee intent attempt event s)
unfolding post_fee Ledger.post
post_fee-KeepsPayments (pos zero) intent attempt event s = ground arith
post_fee-KeepsPayments (pos (suc n)) intent attempt event s = ground arith
post_fee-KeepsPayments (negsuc n) intent attempt event s = ground arith

pub post-KeepsPayments :
    (intent_id : ℕ) (t : JournalType) (event : EventReference) (amount : ℕ) (currency : String)
    (debited credited : LedgerAccount) (s : Session)
    → ((journal : FinancialJournalRecord) × ((Ledger.post intent_id t event amount currency debited
            credited s).0
          ≡ ok journal))
      × KeepsPayments s (Ledger.post intent_id t event amount currency debited credited s)
unfolding Ledger.post
post-KeepsPayments intent_id t event amount currency debited credited s =
    elim (Option-cases (Ledger.find_event t event s.db)) [
      | inl absent ↦ rw absent (
        (_, refl),
        record {
          intents = refl;
          attempts = refl;
          refunds = refl;
          payouts = refl;
          events = refl;
          committed = refl;
          clock = refl;
          next_id = omega arith;
        },
      )
      | inr (journal, e) ↦ rw e (
        (journal, refl),
        record {
          intents = refl;
          attempts = refl;
          refunds = refl;
          payouts = refl;
          events = refl;
          committed = refl;
          clock = refl;
          next_id = omega arith;
        },
      )
    ]

record_capture-KeepsPayments :
    (intent : PaymentIntent) (attempt : PaymentAttempt) (event : EventReference) (fee : ℤ)
    (s : Session)
    → ((record_capture intent attempt event fee s).0 ≡ ok tt)
      × KeepsPayments s (record_capture intent attempt event fee s)
unfolding record_capture
record_capture-KeepsPayments intent attempt event fee s = ground (
  arith,
  post-KeepsPayments intent.id capture event intent.money.amount intent.money.currency
      (processor_receivable attempt.processor) (module_payable intent.client_id) s,
  post_fee-KeepsPayments fee intent attempt event
      (Ledger.post intent.id capture event intent.money.amount intent.money.currency
        (processor_receivable attempt.processor) (module_payable intent.client_id) s).1,
)

announce-KeepsPayments :
    (intent : PaymentIntent) (event : EventReference) (s : Session)
    → ((announce intent event s).0 ≡ ok tt) × KeepsPayments s (announce intent event s)
unfolding announce Outbox.enqueue
announce-KeepsPayments intent event s = ground arith

pub record_payment_success-KeepsPayments :
    (has_outbox has_accounting : Bool) (intent : PaymentIntent) (attempt : PaymentAttempt)
    (event : EventReference) (fee : ℤ) (s : Session)
    → ((record_payment_success has_outbox has_accounting intent attempt event fee s).0 ≡ ok tt)
      × KeepsPayments s
          (record_payment_success has_outbox has_accounting intent attempt event fee s)
unfolding record_payment_success
record_payment_success-KeepsPayments false false intent attempt event fee s = ground arith
record_payment_success-KeepsPayments false true intent attempt event fee s =
    record_capture-KeepsPayments intent attempt event fee s
record_payment_success-KeepsPayments true false intent attempt event fee s =
    ground (arith, announce-KeepsPayments intent event s)
record_payment_success-KeepsPayments true true intent attempt event fee s = ground (
  arith,
  announce-KeepsPayments intent event s,
  record_capture-KeepsPayments intent attempt event fee (announce intent event s).1,
)

pub record_payment_success-Keeps :
    (has_outbox has_accounting : Bool) (intent : PaymentIntent) (attempt : PaymentAttempt)
    (event : EventReference) (fee : ℤ)
    → KeepsCommitted (record_payment_success has_outbox has_accounting intent attempt event fee)
record_payment_success-Keeps has_outbox has_accounting intent attempt event fee = record {
  at = λ s.
      (record_payment_success-KeepsPayments has_outbox has_accounting intent attempt event fee
        s).1.committed;
}
