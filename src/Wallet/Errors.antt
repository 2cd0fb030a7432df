-- ===== src/Wallet/Errors.antt =====
-- The exceptions of payfund_app/modules/wallet (domain/money.py, domain/entities.py, domain/errors.py) and
-- those its calls raise, and results that may raise one.
use diddi_pay_backend.Prelude.{ℕ, ◌≡◌, refl, ◌⊎◌, inl, inr}

pub data Error : Type 0 where
  invalid_amount unknown_currency unbalanced_ledger : Error
  account_not_found account_not_active currency_mismatch insufficient_balance : Error
  integrity_error : Error
  recipient_not_found merchant_not_found transaction_not_found cannot_transfer_to_self : Error
  invalid_amount_error idempotency_conflict gateway_unavailable : Error
  withdrawal_not_supported deposit_method_not_supported : Error
  exchange_rate_unavailable same_currency_conversion : Error
  -- `InvalidPin`: of two PINs that differ, or with the failed attempts and those that remain
  pins_differ : Error
  invalid_pin : ℕ → ℕ → Error
  pin_required pin_already_set recovery_code_invalid : Error
  pin_locked : ℕ → Error
  step_up_otp_required step_up_proof_already_used step_up_proof_invalid : Error
  -- a setting that is missing, a gateway without an adapter, any other failure of a gateway, an operand
  -- that is `None`, and a quotient by zero
  runtime_error not_implemented gateway_error type_error division_by_zero : Error

pub data Result {ℓ} (A : Type ℓ) : Type ℓ where
  ok : A → Result A
  err : Error → Result A

pub Result-cases {ℓ} :
    {A : Type ℓ} (r : Result A) → ((a : A) × (r ≡ ok a)) ⊎ ((e : Error) × (r ≡ err e))
Result-cases (ok a) = inl (a, refl)
Result-cases (err e) = inr (e, refl)
