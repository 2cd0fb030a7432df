-- ===== src/Payments/Intents.antt =====
-- payfund_app/modules/payments/application/use_cases.py: `PaymentUseCases`.
pub mod Create
pub mod Lifecycle
use diddi_pay_backend.Prelude.{
  ℕ, Bool, true, false, not, ◌&&◌, ◌||◌, String, str_eq, is_empty, mem_text, upper, take_text,
  Option, none, some, List, [], ◌∷◌, ◌is◌, ◌==◌, if◌then◌else◌, find_row, get_last?, map,
}
use diddi_pay_backend.Prelude.Int.{ℤ}
use diddi_pay_backend.Payments.Status.{PaymentIntentStatus, AttemptStatus, attempt_enum}
use diddi_pay_backend.Payments.Errors.{
  Error, Result, ok, err, payment_not_found, idempotency_conflict, payment_operation_conflict,
  persistence_conflict, processor_request_rejected, processor_call_uncertain,
}
use diddi_pay_backend.Payments.Errors
use diddi_pay_backend.Payments.Money.{Money, money}
use diddi_pay_backend.Payments.Entities.{
  PaymentIntent, PaymentAttempt, transition_intent, transition_attempt,
}
use diddi_pay_backend.Payments.Payload.{Fields, Scalar, missing, text, number, uuid}
use diddi_pay_backend.Payments.Database.{Database}
use diddi_pay_backend.Payments.Session.{
  Session, Action, ◌>>=◌, ◌>>◌, pure, raise, lift, gets, or_raise, raise_if, fresh_id, utc_now,
  commit, branch,
}
use diddi_pay_backend.Payments.Ports.{
  PaymentProcessorPort, InitializePaymentRequest, ProviderResult, collection, supports,
}
use diddi_pay_backend.Payments.Routing
use diddi_pay_backend.Payments.Repositories.Intents
use diddi_pay_backend.Payments.Repositories.Attempts

pub record CreatePaymentIntentCommand : Type 0 where
  pub client_id : String
  pub business_reference : String
  pub amount : ℤ
  pub currency : String
  pub idempotency_key : String
  pub payer_user_id : Option ℕ
  pub payee_user_id : Option ℕ
  pub channel : Option String
  pub network : Option String
  pub customer_email : Option String
  pub customer_phone : Option String
  pub callback_url : Option String
  pub description : Option String
  pub metadata : String

abbrev text_or_missing : Option String → Scalar
text_or_missing none = missing
text_or_missing (some s) = text s

abbrev uuid_or_missing : Option ℕ → Scalar
uuid_or_missing none = missing
uuid_or_missing (some n) = uuid n

-- `CreatePaymentIntentCommand.fingerprint`, before the digest
unfoldable pub fingerprint_fields : CreatePaymentIntentCommand → Fields
fingerprint_fields c =
    ("client_id", text c.client_id)
    ∷ ("business_reference", text c.business_reference)
    ∷ ("amount", number c.amount)
    ∷ ("currency", text (upper c.currency))
    ∷ ("payer_user_id", uuid_or_missing c.payer_user_id)
    ∷ ("payee_user_id", uuid_or_missing c.payee_user_id)
    ∷ ("channel", text_or_missing c.channel)
    ∷ ("network", text_or_missing c.network)
    ∷ ("callback_url", text_or_missing c.callback_url)
    ∷ ("description", text_or_missing c.description)
    ∷ ("metadata", text c.metadata)
    ∷ []

pub record PaymentView : Type 0 where
  pub intent : PaymentIntent
  pub attempts : List PaymentAttempt
  pub created : Bool

abbrev view : PaymentIntent → Database → PaymentView
view intent db = record {
  intent = intent;
  attempts = Attempts.list_for_intent intent.id db;
  created = false;
}

-- `get`
unfoldable pub get : String → ℕ → Action PaymentView
get client_id intent_id = do
  intent ← or_raise (← gets (Intents.get intent_id)) payment_not_found
  raise_if (not (str_eq intent.client_id client_id)) payment_not_found
  gets (view intent)

-- `list`
unfoldable pub list : String → ℕ → Action (List PaymentView)
list client_id limit =
    gets (λ db. map (λ intent. view intent db) (Intents.list_for_client client_id limit db))

abbrev pub is_sent : PaymentAttempt → Bool
is_sent attempt =
    not (attempt.status is AttemptStatus.pending) || has_reference attempt.provider_reference
  where
    has_reference : Option String → Bool
    has_reference none = false
    has_reference (some _) = true

-- The end of `cancel`; the list of attempts holds the cancelled object.
unfoldable pub cancel_attempt : PaymentView → PaymentAttempt → Action PaymentView
cancel_attempt v attempt = do
  raise_if (is_sent attempt) payment_operation_conflict
  now ← utc_now
  attempt' ← lift (transition_attempt now AttemptStatus.cancelled attempt)
  intent' ← lift (transition_intent now PaymentIntentStatus.cancelled v.intent)
  Attempts.save attempt'
  Intents.save intent'
  commit
  let answer : PaymentView = record {
    intent = intent';
    attempts = map (λ a. if a.id == attempt'.id then attempt' else a) v.attempts;
    created = false;
  }
  pure answer

-- `cancel`
unfoldable pub cancel : String → ℕ → Action PaymentView
cancel client_id intent_id = do
  v ← get client_id intent_id
  attempt ← or_raise (get_last? v.attempts) payment_operation_conflict
  cancel_attempt v attempt
