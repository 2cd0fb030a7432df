-- ===== src/Payments/Intents/Create.antt =====
-- `PaymentUseCases.create` of payfund_app/modules/payments/application/use_cases.py.
use diddi_pay_backend.Prelude.{
  ℕ, Bool, true, not, ◌&&◌, String, str_eq, is_empty, mem_text, take_text, Option, none, some, [],
  ◌∷◌, if◌then◌else◌, find_row,
}
use diddi_pay_backend.Payments.Status.{PaymentIntentStatus, AttemptStatus, attempt_enum}
use diddi_pay_backend.Payments.Errors.{
  Error, Result, ok, err, idempotency_conflict, persistence_conflict, processor_request_rejected,
  processor_call_uncertain,
}
use diddi_pay_backend.Payments.Money.{Money, money}
use diddi_pay_backend.Payments.Entities.{
  PaymentIntent, PaymentAttempt, transition_intent, transition_attempt,
}
use diddi_pay_backend.Payments.Payload.{Fields}
use diddi_pay_backend.Payments.Session.{
  Action, ◌>>=◌, ◌>>◌, pure, raise, lift, gets, fresh_id, utc_now, commit, branch,
}
use diddi_pay_backend.Payments.Ports.{
  PaymentProcessorPort, InitializePaymentRequest, ProviderResult, collection, supports,
}
use diddi_pay_backend.Payments.Routing
use diddi_pay_backend.Payments.Repositories.Intents
use diddi_pay_backend.Payments.Repositories.Attempts
use diddi_pay_backend.Payments.Intents.{
  CreatePaymentIntentCommand, PaymentView, fingerprint_fields, view,
}

abbrev idempotent_view : PaymentIntent → String → Action PaymentView
idempotent_view intent fingerprint =
    branch (str_eq intent.request_fingerprint fingerprint) (gets (view intent))
      (raise idempotency_conflict)

-- A processor that names the network of the request, and is not a simulated one.
abbrev is_dedicated : CreatePaymentIntentCommand → String → PaymentProcessorPort → Bool
is_dedicated c network p =
    not (mem_text p.name Routing.simulated_processor_names)
    && mem_text network p.capabilities.networks
    && supports p.capabilities c.currency collection c.channel c.network

abbrev name_or : Option PaymentProcessorPort → Option String → Option String
name_or (some p) default = some p.name
name_or none default = default

abbrev preferred_for :
    Option String
    → Option String
    → CreatePaymentIntentCommand
    → Routing.ProcessorRegistry
    → Option String
preferred_for none default c registry = default
preferred_for (some network) default c registry =
    if is_empty network
    then default
    else name_or (find_row (is_dedicated c network) (Routing.ordered registry)) default

-- The processor that `create` prefers: one dedicated to the network, or else the default one.
unfoldable pub preferred_processor :
    Option String → CreatePaymentIntentCommand → Routing.ProcessorRegistry → Option String
preferred_processor default c registry = preferred_for c.network default c registry

abbrev new_intent : CreatePaymentIntentCommand → String → Money → ℕ → ℕ → PaymentIntent
new_intent c fingerprint m id now = record {
  id = id;
  client_id = c.client_id;
  business_reference = c.business_reference;
  money = m;
  idempotency_key = c.idempotency_key;
  request_fingerprint = fingerprint;
  payer_user_id = c.payer_user_id;
  payee_user_id = c.payee_user_id;
  description = c.description;
  metadata = c.metadata;
  status = PaymentIntentStatus.processing;
  refunded_amount = 0;
  created_at = now;
  updated_at = now;
}

abbrev new_attempt : CreatePaymentIntentCommand → String → PaymentIntent → ℕ → ℕ → PaymentAttempt
new_attempt c processor intent id now = record {
  id = id;
  payment_intent_id = intent.id;
  processor = processor;
  money = intent.money;
  attempt_number = 1;
  channel = c.channel;
  network = c.network;
  status = AttemptStatus.pending;
  provider_reference = none;
  provider_status = none;
  action = none;
  failure_code = none;
  failure_message = none;
  created_at = now;
  updated_at = now;
}

abbrev failure : String → AttemptStatus → String → String → String → ProviderResult
failure reference status provider_status code message = record {
  provider_reference = reference;
  status = status;
  provider_status = some provider_status;
  action = none;
  failure_code = some code;
  failure_message = some (take_text 255 message);
  amount = none;
  currency = none;
  fee = none;
}

abbrev target_status : AttemptStatus → Option PaymentIntentStatus
target_status AttemptStatus.requires_action = some PaymentIntentStatus.requires_action
target_status AttemptStatus.succeeded = some PaymentIntentStatus.succeeded
target_status AttemptStatus.failed = some PaymentIntentStatus.failed
target_status AttemptStatus.cancelled = some PaymentIntentStatus.cancelled
target_status _ = none

abbrev move_intent : ℕ → Option PaymentIntentStatus → PaymentIntent → Result PaymentIntent
move_intent now none intent = ok intent
move_intent now (some target) intent = transition_intent now target intent

abbrev both :
    ℕ
    → ProviderResult
    → PaymentIntent
    → Result PaymentAttempt
    → Result (PaymentIntent × PaymentAttempt)
both now result intent (err e) = err e
both now result intent (ok attempt) =
    with_attempt (move_intent now (target_status result.status) intent)
  where
    with_attempt : Result PaymentIntent → Result (PaymentIntent × PaymentAttempt)
    with_attempt (ok intent') = ok (intent', attempt)
    with_attempt (err e) = err e

-- `_apply_provider_result`
unfoldable pub apply_provider_result :
    ℕ → ProviderResult → PaymentIntent → PaymentAttempt → Result (PaymentIntent × PaymentAttempt)
unfolding transition_attempt transition_intent
apply_provider_result now result intent attempt = both now result intent (
    transition_attempt now result.status (record attempt {
      provider_reference = some result.provider_reference;
      provider_status = result.provider_status;
      action = result.action;
      failure_code = result.failure_code;
      failure_message = result.failure_message;
    }))

abbrev request_of :
    CreatePaymentIntentCommand → PaymentIntent → PaymentAttempt → InitializePaymentRequest
request_of c intent attempt = record {
  payment_intent_id = intent.id;
  attempt_id = attempt.id;
  business_reference = intent.business_reference;
  money = intent.money;
  idempotency_key = c.idempotency_key;
  channel = c.channel;
  network = c.network;
  customer_email = c.customer_email;
  customer_phone = c.customer_phone;
  callback_url = c.callback_url;
  metadata = c.metadata;
}

-- `rejected` and `unknown` print f"rejected-{id}" and f"unknown-{id}", `str_of` an exception.
module _ (rejected unknown : ℕ → String) (str_of : Error → String) where
  abbrev initialized : ℕ → Result ProviderResult → ProviderResult
  initialized id (ok result) = result
  initialized id (err (processor_request_rejected message)) =
      failure (rejected id) AttemptStatus.failed "rejected_before_call" "PROCESSOR_REQUEST_REJECTED"
        message
  initialized id (err (processor_call_uncertain reference message)) =
      failure reference AttemptStatus.unknown "network_error" "PROCESSOR_UNCERTAIN" message
  initialized id (err e) =
      failure (unknown id) AttemptStatus.unknown "network_error" "PROCESSOR_UNCERTAIN" (str_of e)

  -- `_initialize`
  unfoldable pub initialize :
      PaymentProcessorPort
      → CreatePaymentIntentCommand
      → PaymentIntent
      → PaymentAttempt
      → ProviderResult
  initialize processor c intent attempt =
      initialized attempt.id (processor.initialize_payment (request_of c intent attempt))

  -- The end of `create`, from the call of the processor on.
  unfoldable pub call :
      PaymentProcessorPort
      → CreatePaymentIntentCommand
      → PaymentIntent
      → PaymentAttempt
      → Action PaymentView
  call processor c intent attempt = do
    now ← utc_now
    moved ← lift (apply_provider_result now (initialize processor c intent attempt) intent attempt)
    Intents.save moved.0
    Attempts.save moved.1
    commit
    let answer : PaymentView = record { intent = moved.0; attempts = moved.1 ∷ []; created = true }
    pure answer

  abbrev reread : Option PaymentIntent → String → Action PaymentView
  reread none fingerprint = raise persistence_conflict
  reread (some intent) fingerprint = idempotent_view intent fingerprint

  -- The `try` around the first commit.
  abbrev after_insert :
      CreatePaymentIntentCommand
      → String
      → Action PaymentView
      → Result (Unit {0})
      → Action PaymentView
  after_insert c fingerprint next (ok _) = next
  after_insert c fingerprint next (err persistence_conflict) =
      gets (Intents.get_by_idempotency c.client_id c.idempotency_key) >>= λ existing.
      reread existing fingerprint
  after_insert c fingerprint next (err e) = raise e

  abbrev insert : PaymentIntent → PaymentAttempt → Action (Unit {0})
  insert intent attempt = do Intents.add intent; Attempts.add attempt; commit

  abbrev insert_then :
      CreatePaymentIntentCommand
      → String
      → PaymentIntent
      → PaymentAttempt
      → Action PaymentView
      → Action PaymentView
  insert_then c fingerprint intent attempt next s =
      let (r, s') = insert intent attempt s in after_insert c fingerprint next r s'

  -- `create` where the key is new.
  unfoldable pub create_new :
      Option String
      → Routing.ProcessorRegistry
      → CreatePaymentIntentCommand
      → String
      → Action PaymentView
  create_new default registry c fingerprint = do
    processor ← lift (
        Routing.select c.currency collection c.channel c.network
          (preferred_processor default c registry) registry)
    m ← lift (money c.amount c.currency)
    intent_id ← fresh_id
    attempt_id ← fresh_id
    now ← utc_now
    let intent : PaymentIntent = new_intent c fingerprint m intent_id now
    let attempt : PaymentAttempt = new_attempt c processor.name intent attempt_id now
    insert_then c fingerprint intent attempt (call processor c intent attempt)

  abbrev unless_found :
      Option String
      → Routing.ProcessorRegistry
      → CreatePaymentIntentCommand
      → String
      → Option PaymentIntent
      → Action PaymentView
  unless_found default registry c fingerprint (some intent) = idempotent_view intent fingerprint
  unless_found default registry c fingerprint none = create_new default registry c fingerprint

  -- `create`; `digest` is SHA-256 of the canonical JSON, `default` the configured processor.
  unfoldable pub create :
      (Fields → String)
      → Option String
      → Routing.ProcessorRegistry
      → CreatePaymentIntentCommand
      → Action PaymentView
  create digest default registry c =
      gets (Intents.get_by_idempotency c.client_id c.idempotency_key)
      >>= unless_found default registry c (digest (fingerprint_fields c))
