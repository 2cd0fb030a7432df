-- ===== src/Payments/Samples.antt =====
-- Sample rows and processors for the tests and the examples.
use diddi_pay_backend.Prelude.{ℕ, String, some, none, [], ◌∷◌}
use diddi_pay_backend.Payments.Status.{
  PaymentIntentStatus, AttemptStatus, RefundStatus, PayoutStatus,
}
use diddi_pay_backend.Payments.Errors.{ok, err, other_error}
use diddi_pay_backend.Payments.Money.{Money}
use diddi_pay_backend.Payments.Entities.{PaymentIntent, PaymentAttempt}
use diddi_pay_backend.Payments.Payload.{Fields}
use diddi_pay_backend.Payments.Database.{Database}
use diddi_pay_backend.Payments.Ports.{PaymentProcessorPort, collection, refund, payout}
use diddi_pay_backend.Payments.Routing.{ProcessorRegistry}

abbrev pub xof : ℕ → Money
xof n = record { amount = n; currency = "XOF" }

abbrev pub paid_intent : PaymentIntent
paid_intent = record {
  id = 1;
  client_id = "fund";
  business_reference = "order-1";
  money = xof 500;
  idempotency_key = "key-1";
  request_fingerprint = "print-1";
  payer_user_id = none;
  payee_user_id = none;
  description = none;
  metadata = "{}";
  status = PaymentIntentStatus.succeeded;
  refunded_amount = 0;
  created_at = 10;
  updated_at = 20;
}

abbrev pub paid_attempt : PaymentAttempt
paid_attempt = record {
  id = 2;
  payment_intent_id = 1;
  processor = "paystack";
  money = xof 500;
  attempt_number = 1;
  channel = none;
  network = none;
  status = AttemptStatus.succeeded;
  provider_reference = some "ref-1";
  provider_status = some "success";
  action = none;
  failure_code = none;
  failure_message = none;
  created_at = 10;
  updated_at = 20;
}

abbrev pub empty : Database
empty = record {
  intents = [];
  attempts = [];
  events = [];
  refunds = [];
  outbox = [];
  payouts = [];
  journals = [];
  entries = [];
}

abbrev pub paid : Database
paid = record empty { intents = paid_intent ∷ []; attempts = paid_attempt ∷ [] }

-- A processor that settles every refund and payout, and fails every other call.
abbrev pub paystack : PaymentProcessorPort
paystack = record {
  name = "paystack";
  capabilities = record {
    currencies = "XOF" ∷ [];
    directions = collection ∷ refund ∷ payout ∷ [];
    channels = [];
    networks = [];
  };
  initialize_payment = λ request. err (other_error "down");
  verify_payment = λ reference. err (other_error "down");
  parse_webhook = λ body signature. err (other_error "down");
  refund_payment = λ request. ok (record {
    provider_reference = some "refund-ref";
    status = RefundStatus.succeeded;
    provider_status = some "processed";
    failure_code = none;
    failure_message = none;
  });
  create_payout = λ request. ok (record {
    provider_reference = some "payout-ref";
    status = PayoutStatus.succeeded;
    provider_status = some "processed";
    failure_code = none;
    failure_message = none;
  });
  verify_payout = λ reference. err (other_error "down");
}

abbrev pub registry : ProcessorRegistry
registry = record { priority = 100; processor = paystack } ∷ []

-- A digest that keeps nothing; the examples do not compare two requests.
abbrev pub digest : Fields → String
digest fields = "digest"

-- A payment before its success.
abbrev pub waiting_intent : PaymentIntent
waiting_intent = record paid_intent { status = PaymentIntentStatus.processing }

abbrev pub waiting_attempt : PaymentAttempt
waiting_attempt = record paid_attempt { status = AttemptStatus.processing }
