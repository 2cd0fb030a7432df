-- ===== src/Payments/Tests.antt =====
-- The payment module at concrete inputs.
use diddi_pay_backend.Prelude.{
  is_empty, ◌∷◌, ℕ, ◌↔◌, ◌≡◌, refl, ◌<◌, ◌≤◌, ◌+◌, arith, true, false, none, some, [], String,
  Option, count_chars, is_alpha, upper, strip,
}
use diddi_pay_backend.Prelude.Int.{pos}
use diddi_pay_backend.Payments.Status.{AttemptStatus, PayoutStatus}
use diddi_pay_backend.Payments.Errors.{ok}
use diddi_pay_backend.Payments.Money.{money}
use diddi_pay_backend.Payments.Entities.{
  PaymentIntent, PaymentAttempt, apply_refund, transition_attempt, Payout, apply_provider_status,
}
use diddi_pay_backend.Payments.Entities.RefundedAmount.{Agrees, apply_refund_total}
use diddi_pay_backend.Payments.Database.{
  FinancialJournalRecord, capture, processor_receivable, module_payable, PaymentOutboxRecord,
  pending, delivering, dead_letter,
}
use diddi_pay_backend.Payments.Session.{Session, begin}
use diddi_pay_backend.Payments.Ports.{ProviderResult, refund, supports}
use diddi_pay_backend.Payments.Samples.{
  paystack, registry, xof, paid, paid_intent, paid_attempt, waiting_intent,
}
use diddi_pay_backend.Payments.Payload.{provider_event}
use diddi_pay_backend.Payments.Repositories.Ledger
use diddi_pay_backend.Payments.Repositories.Ledger.Replay.{post_lem}
use diddi_pay_backend.Payments.Repositories.Outbox
use diddi_pay_backend.Payments.Repositories.Outbox.Retries.{marked_failed_lem}
use diddi_pay_backend.Payments.Intents.{PaymentView, cancel_attempt}
use diddi_pay_backend.Payments.Intents.Create.{apply_provider_result}
use diddi_pay_backend.Payments.Intents.Lifecycle.{
  SameOutcome, apply_provider_result_lem, Cancels, cancel_attempt-Cancels,
}
use diddi_pay_backend.Payments.Entities.Final.{attempt-stays, payout-stays}
use diddi_pay_backend.Payments.Routing
use diddi_pay_backend.Payments.Routing.Select.{Serves, select-Serves}

apply_refund_total_example :
    (intent' : PaymentIntent) × (apply_refund 30 200 paid_intent ≡ ok intent')
    × (intent'.refunded_amount ≡ paid_intent.refunded_amount + 200)
    × Agrees intent'.status intent'.refunded_amount paid_intent.money.amount
    × (intent'.money ≡ paid_intent.money)
    × (intent'.id ≡ paid_intent.id)
apply_refund_total_example = apply_refund_total 30 200 paid_intent refl (omega arith) (omega arith)

abbrev order_row : PaymentOutboxRecord
order_row = record {
  id = 7;
  client_id = "fund";
  event_type = "payment.succeeded";
  aggregate_id = 1;
  payload = [];
  status = delivering;
  attempts = 2;
  last_error = none;
  next_attempt_at = 10;
  delivered_at = none;
  locked_at = some 20;
  created_at = 10;
}

abbrev retried : PaymentOutboxRecord
retried = Outbox.marked_failed 30 10 "timeout" order_row

marked_failed_lem_example :
    (retried.attempts ≡ 3)
    × (retried.locked_at ≡ none)
    × (10 ≤ 3
        → (retried.status ≡ dead_letter)
          × ((later lease : ℕ) → Outbox.is_due later lease retried ≡ false))
    × (3 < 10
        → (retried.status ≡ pending)
          × ((wait : ℕ) × (1 ≤ wait)
              × (wait ≤ 3600)
              × ((later lease : ℕ)
                  → (Outbox.is_due later lease retried ≡ true) ↔ (30 + wait ≤ later))))
marked_failed_lem_example = marked_failed_lem 30 10 "timeout" order_row

francs : money (pos 500) "xof" ≡ ok (xof 500)
unfolding money count_chars upper strip is_alpha
francs = refl

abbrev answer : ProviderResult
answer = record {
  provider_reference = "ref-9";
  status = AttemptStatus.succeeded;
  provider_status = some "success";
  action = none;
  failure_code = none;
  failure_message = none;
  amount = none;
  currency = none;
  fee = none;
}

abbrev fresh_attempt : PaymentAttempt
fresh_attempt = record paid_attempt { status = AttemptStatus.pending; provider_reference = none }

apply_provider_result_lem_example :
    (intent' : PaymentIntent) × (attempt' : PaymentAttempt) × (apply_provider_result 30 answer
        waiting_intent fresh_attempt
      ≡ ok (intent', attempt'))
    × (attempt'.status ≡ AttemptStatus.succeeded)
    × SameOutcome intent' attempt'
apply_provider_result_lem_example =
    apply_provider_result_lem 30 answer waiting_intent fresh_attempt refl refl

abbrev shown : PaymentView
shown = record { intent = waiting_intent; attempts = fresh_attempt ∷ []; created = false }

-- The payment and its attempt, before the call of the provider.
abbrev uncalled : Session
uncalled = begin (record paid { intents = waiting_intent ∷ []; attempts = fresh_attempt ∷ [] }) 30 5

cancel_attempt-Cancels_example :
    Cancels shown fresh_attempt uncalled (cancel_attempt shown fresh_attempt uncalled)
cancel_attempt-Cancels_example = cancel_attempt-Cancels shown fresh_attempt uncalled

attempt_kept : transition_attempt 30 AttemptStatus.succeeded paid_attempt ≡ ok paid_attempt
unfolding transition_attempt
attempt_kept = refl

attempt-stays_example : paid_attempt ≡ paid_attempt
attempt-stays_example =
    attempt-stays 30 AttemptStatus.succeeded paid_attempt paid_attempt refl attempt_kept

abbrev sent_payout : Payout
sent_payout = record {
  id = 8;
  client_id = "fund";
  business_reference = "loan-1";
  beneficiary_reference = "user-1";
  money = xof 500;
  idempotency_key = "payout-1";
  request_fingerprint = "print-8";
  processor = "paystack";
  metadata = "{}";
  destination = none;
  status = PayoutStatus.succeeded;
  provider_reference = some "payout-ref";
  provider_status = some "processed";
  failure_code = none;
  failure_message = none;
  created_at = 10;
  updated_at = 20;
}

abbrev payout_again : Payout
payout_again = record sent_payout { updated_at = 30 }

payout_kept :
    apply_provider_status 30 PayoutStatus.succeeded none (some "processed") none none sent_payout
    ≡ ok payout_again
unfolding apply_provider_status
payout_kept = refl

payout-stays_example :
    (payout_again.status ≡ PayoutStatus.succeeded) × (payout_again.money ≡ xof 500)
payout-stays_example =
    payout-stays 30 PayoutStatus.succeeded none (some "processed") none none sent_payout
      payout_again refl payout_kept

refunding : Routing.select "XOF" refund none none (some "paystack") registry ≡ ok paystack
unfolding Routing.select Routing.candidates Routing.get Routing.first_supporting supports upper
refunding = refl

select-Serves_example :
    Serves "XOF" refund none none paystack
    × ((name : String)
        → Path (Option String) (some "paystack") (some name)
        → is_empty name ≡ false
        → paystack.name ≡ name)
select-Serves_example =
    select-Serves "XOF" refund none none (some "paystack") registry paystack refunding

abbrev captured : FinancialJournalRecord
captured = record {
  id = 5;
  payment_intent_id = some 1;
  payout_id = none;
  event_type = capture;
  event_reference = provider_event "event-1";
  amount = 500;
  currency = "XOF";
}

abbrev booked : Session
booked =
    (Ledger.post 1 capture (provider_event "event-1") 500 "XOF" (processor_receivable "paystack")
      (module_payable "fund") (begin paid 30 5)).1

booking_answer :
    (Ledger.post 1 capture
      (provider_event "event-1")
      500
      "XOF"
      (processor_receivable "paystack")
      (module_payable "fund")
      (begin paid 30 5)).0
    ≡ ok captured
unfolding Ledger.post Ledger.write_journal Ledger.find_event
booking_answer = refl

booking_done :
    Ledger.post 1 capture
      (provider_event "event-1")
      500
      "XOF"
      (processor_receivable "paystack")
      (module_payable "fund")
      (begin paid 30 5)
    ≡ (ok captured, booked)
booking_done = rw booking_answer refl

post_lem_example :
    Ledger.post 1 capture
      (provider_event "event-1")
      700
      "XOF"
      (processor_receivable "paystack")
      (module_payable "fund")
      booked
    ≡ (ok captured, booked)
post_lem_example =
    post_lem capture (provider_event "event-1") 1 500 "XOF" (processor_receivable "paystack")
      (module_payable "fund") (begin paid 30 5) booked captured booking_done 1 700 "XOF"
      (processor_receivable "paystack") (module_payable "fund")
