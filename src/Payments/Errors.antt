-- ===== src/Payments/Errors.antt =====
-- The exceptions of payfund_app/modules/payments (domain/errors.py, application/errors.py,
-- application/processor_router.py) and of the database layer, and results that may raise one.
-- An exception keeps its text where the program stores that text.
use diddi_pay_backend.Prelude.{◌≡◌, refl, ◌⊎◌, inl, inr, Bool, true, false, String}

pub data Error : Type 0 where
  -- domain/errors.py
  invalid_amount invalid_currency : Error
  invalid_state_transition : String → Error
  -- application/errors.py
  payment_not_found idempotency_conflict payment_operation_conflict persistence_conflict : Error
  processor_request_rejected : String → Error
  -- the provider's reference, and the message
  processor_call_uncertain : String → String → Error
  callback_delivery_failed : String → Error
  -- application/processor_router.py
  processor_routing_error : String → Error
  -- `OSError`, with its text
  os_error : String → Error
  -- `ValueError`, `LookupError`, SQLAlchemy's `IntegrityError`, and any other exception
  value_error lookup_error integrity_error : Error
  other_error : String → Error

-- What a function answers that may raise.
pub data Result {ℓ} (A : Type ℓ) : Type ℓ where
  err : Error → Result A
  ok : A → Result A

infixl 5 ◌>>=◌
module _ {ℓ κ} {A : Type ℓ} {B : Type κ} where
  -- The statements after a call that may raise.
  abbrev pub ◌>>=◌ : Result A → (A → Result B) → Result B
  ◌>>=◌ (err raised) continuation = err raised
  ◌>>=◌ (ok value) continuation = continuation value

infixl 5 ◌>>◌
module _ {ℓ} {B : Type ℓ} where
  abbrev pub ◌>>◌ : Result (Unit {0}) → Result B → Result B
  ◌>>◌ check rest = check >>= λ _. rest

-- `if test: raise e`
abbrev pub raise_if : Bool → Error → Result (Unit {0})
raise_if true e = err e
raise_if false e = ok tt

pub Result-cases {ℓ} :
    {A : Type ℓ} (r : Result A) → ((a : A) × (r ≡ ok a)) ⊎ ((e : Error) × (r ≡ err e))
Result-cases (ok a) = inl (a, refl)
Result-cases (err e) = inr (e, refl)
