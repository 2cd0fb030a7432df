-- ===== src/Payments/Payouts.antt =====
-- payfund_app/modules/payments/application/payouts.py: `PayoutUseCases`.
pub mod Reconcile
use diddi_pay_backend.Prelude.{
  ℕ, Bool, true, false, not, ◌&&◌, String, str_eq, mem_text, upper, take_text, to_text, Option,
  none, some, [], ◌∷◌, ◌is◌,
}
use diddi_pay_backend.Prelude.Int.{ℤ, pos}
use diddi_pay_backend.Payments.Status.{PayoutStatus, payout_enum}
use diddi_pay_backend.Payments.Errors.{
  Error, Result, ok, err, payment_not_found, idempotency_conflict, persistence_conflict,
  processor_request_rejected, processor_call_uncertain, processor_routing_error,
}
use Prim.Native.String.{◌++◌ as ◌^◌}
use diddi_pay_backend.Payments.Money.{Money, money}
use diddi_pay_backend.Payments.Entities.{Payout, Destination, apply_provider_status}
use diddi_pay_backend.Payments.Payload.{Fields, Scalar, missing, text, number, uuid, place}
use diddi_pay_backend.Payments.Session.{
  Action, ◌>>=◌, ◌>>◌, pure, raise, lift, gets, or_raise, raise_if, fresh_id, utc_now, commit,
  branch, when,
}
use diddi_pay_backend.Payments.Ports.{PaymentProcessorPort, PayoutRequest, PayoutResult, payout}
use diddi_pay_backend.Payments.Routing
use diddi_pay_backend.Payments.Accounting.{record_payout_success}
use diddi_pay_backend.Payments.Repositories.Payouts
use diddi_pay_backend.Payments.Repositories.Outbox

pub record CreatePayoutCommand : Type 0 where
  pub client_id : String
  pub business_reference : String
  pub beneficiary_reference : String
  pub amount : ℤ
  pub currency : String
  pub idempotency_key : String
  pub beneficiary_destination : Option Destination
  pub metadata : String

abbrev place_or_missing : Option Destination → Scalar
place_or_missing none = missing
place_or_missing (some d) = place d

-- `CreatePayoutCommand.fingerprint`, before the digest
unfoldable pub fingerprint_fields : CreatePayoutCommand → Fields
fingerprint_fields c =
    ("client_id", text c.client_id)
    ∷ ("business_reference", text c.business_reference)
    ∷ ("beneficiary_reference", text c.beneficiary_reference)
    ∷ ("beneficiary_destination", place_or_missing c.beneficiary_destination)
    ∷ ("amount", number c.amount)
    ∷ ("currency", text (upper c.currency))
    ∷ ("metadata", text c.metadata)
    ∷ []

pub record PayoutView : Type 0 where
  pub payout : Payout
  pub created : Bool

pub record PayoutReconciliationSummary : Type 0 where
  pub scanned : ℕ
  pub succeeded : ℕ
  pub failed : ℕ
  pub pending : ℕ

abbrev known : Payout → Action PayoutView
known p = pure (record { payout = p; created = false })

-- `get`
unfoldable pub get : String → ℕ → Action PayoutView
get client_id payout_id = do
  p ← or_raise (← gets (Payouts.get payout_id)) payment_not_found
  raise_if (not (str_eq p.client_id client_id)) payment_not_found
  known p

-- `get_by_business_reference`
unfoldable pub get_by_business_reference : String → String → Action PayoutView
get_by_business_reference client_id reference = do
  p ← or_raise (← gets (Payouts.get_by_business_reference client_id reference)) payment_not_found
  known p

-- `_idempotent_view`
abbrev idempotent_view : Payout → String → Action PayoutView
idempotent_view p fingerprint =
    branch (str_eq p.request_fingerprint fingerprint) (known p) (raise idempotency_conflict)

-- `_enqueue_status`
unfoldable pub enqueue_status : Payout → Action (Unit {0})
enqueue_status p = Outbox.enqueue p.client_id ("payout." ^ to_text p.status) p.id (
    ("payout_id", uuid p.id)
    ∷ ("business_reference", text p.business_reference)
    ∷ ("beneficiary_reference", text p.beneficiary_reference)
    ∷ ("amount", number (pos p.money.amount))
    ∷ ("currency", text p.money.currency)
    ∷ ("status", text (to_text p.status))
    ∷ ("metadata", text p.metadata)
    ∷ [])

abbrev channel_of : Option Destination → Option String
channel_of none = none
channel_of (some d) = d.kind

abbrev network_of : Option Destination → Option String
network_of none = none
network_of (some d) = d.network

abbrev new_payout : CreatePayoutCommand → String → String → Money → ℕ → ℕ → Payout
new_payout c fingerprint processor m id now = record {
  id = id;
  client_id = c.client_id;
  business_reference = c.business_reference;
  beneficiary_reference = c.beneficiary_reference;
  money = m;
  idempotency_key = c.idempotency_key;
  request_fingerprint = fingerprint;
  processor = processor;
  metadata = c.metadata;
  destination = c.beneficiary_destination;
  status = PayoutStatus.pending;
  provider_reference = none;
  provider_status = none;
  failure_code = none;
  failure_message = none;
  created_at = now;
  updated_at = now;
}

abbrev failure : Option String → PayoutStatus → String → String → String → PayoutResult
failure reference status provider_status code message = record {
  provider_reference = reference;
  status = status;
  provider_status = some provider_status;
  failure_code = some code;
  failure_message = some (take_text 255 message);
}

abbrev request_of : Payout → PayoutRequest
request_of p = record {
  payout_id = p.id;
  business_reference = p.business_reference;
  beneficiary_reference = p.beneficiary_reference;
  money = p.money;
  idempotency_key = p.idempotency_key;
  destination = p.destination;
  metadata = p.metadata;
}

-- `apply_provider_status` with the fields of a result
abbrev pub answered : ℕ → PayoutResult → Payout → Result Payout
answered now result p =
    apply_provider_status now result.status result.provider_reference result.provider_status
      result.failure_code result.failure_message p

module _ (str_of : Error → String) (has_accounting : Bool) where
  abbrev executed : Result PayoutResult → PayoutResult
  executed (ok result) = result
  executed (err (processor_request_rejected message)) =
      failure none PayoutStatus.failed "rejected_before_call" "PROCESSOR_REQUEST_REJECTED" message
  executed (err (processor_call_uncertain reference message)) =
      failure (some reference) PayoutStatus.processing "network_error" "PROCESSOR_UNCERTAIN" message
  executed (err e) =
      failure none PayoutStatus.processing "network_error" "PROCESSOR_UNCERTAIN" (str_of e)

  -- `_execute`
  unfoldable pub execute : PaymentProcessorPort → Payout → PayoutResult
  execute processor p = executed (processor.create_payout (request_of p))

  -- The end of `create`, from the call of the processor on.
  unfoldable pub call : PaymentProcessorPort → Payout → Action PayoutView
  call processor p = do
    now ← utc_now
    p' ← lift (answered now (execute processor p) p)
    Payouts.save p'
    when (p'.status is PayoutStatus.succeeded && has_accounting) (record_payout_success p')
    enqueue_status p'
    commit
    pure (record { payout = p'; created = true })

  abbrev reread : Option Payout → String → Action PayoutView
  reread none fingerprint = raise persistence_conflict
  reread (some p) fingerprint = idempotent_view p fingerprint

  -- The `try` around the first commit.
  abbrev after_insert :
      CreatePayoutCommand → String → Action PayoutView → Result (Unit {0}) → Action PayoutView
  after_insert c fingerprint next (ok _) = next
  after_insert c fingerprint next (err persistence_conflict) =
      gets (Payouts.get_by_idempotency c.client_id c.idempotency_key) >>= λ existing.
      reread existing fingerprint
  after_insert c fingerprint next (err e) = raise e

  abbrev insert_then : CreatePayoutCommand → String → Payout → Action PayoutView → Action PayoutView
  insert_then c fingerprint p next s =
      let (r, s') = (Payouts.add p >> commit) s in after_insert c fingerprint next r s'

  -- `create` where the key is new; `simulated` allows a simulated processor.
  unfoldable pub create_new :
      Bool → Routing.ProcessorRegistry → CreatePayoutCommand → String → Action PayoutView
  create_new simulated registry c fingerprint = do
    processor ← lift (
        Routing.select c.currency payout (channel_of c.beneficiary_destination)
          (network_of c.beneficiary_destination) none registry)
    raise_if (mem_text processor.name Routing.simulated_processor_names && not simulated)
        (processor_routing_error "no real payout processor is configured")
    m ← lift (money c.amount c.currency)
    id ← fresh_id
    now ← utc_now
    let p : Payout = new_payout c fingerprint processor.name m id now
    insert_then c fingerprint p (call processor p)

  abbrev unless_found :
      Bool
      → Routing.ProcessorRegistry
      → CreatePayoutCommand
      → String
      → Option Payout
      → Action PayoutView
  unless_found simulated registry c fingerprint (some p) = idempotent_view p fingerprint
  unless_found simulated registry c fingerprint none = create_new simulated registry c fingerprint

  -- `create`
  unfoldable pub create :
      (Fields → String) → Bool → Routing.ProcessorRegistry → CreatePayoutCommand → Action PayoutView
  create digest simulated registry c =
      gets (Payouts.get_by_idempotency c.client_id c.idempotency_key)
      >>= unless_found simulated registry c (digest (fingerprint_fields c))
