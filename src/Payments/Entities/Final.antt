-- ===== src/Payments/Entities/Final.antt =====
-- The final statuses of payfund_app/modules/payments/domain/entities.py.
use diddi_pay_backend.Prelude.{ℕ, ◌≡◌, true, String, Option, [], ◌∷◌, ◌is_in◌, arith}
use diddi_pay_backend.Payments.Status.{
  AttemptStatus, PayoutStatus, intent_enum, attempt_enum, refund_enum, payout_enum,
}
use diddi_pay_backend.Payments.Errors.{ok}
use diddi_pay_backend.Payments.Entities.{
  PaymentAttempt, Payout, transition_attempt, apply_provider_status,
}

abbrev pub IsFinalAttempt : PaymentAttempt → Type 0
IsFinalAttempt attempt =
    attempt.status
      is_in (AttemptStatus.succeeded ∷ AttemptStatus.failed ∷ AttemptStatus.cancelled ∷ [])
    ≡ true

abbrev pub IsFinalPayout : Payout → Type 0
IsFinalPayout payout =
    payout.status is_in (PayoutStatus.succeeded ∷ PayoutStatus.failed ∷ []) ≡ true

-- A transition that is accepted leaves an attempt that has succeeded, failed or been cancelled as
-- it is.
pub attempt-stays :
    (now : ℕ) (target : AttemptStatus) (attempt attempt' : PaymentAttempt)
    → IsFinalAttempt attempt
    → transition_attempt now target attempt ≡ ok attempt'
    → attempt' ≡ attempt
unfolding transition_attempt
attempt-stays now target attempt attempt' f h = ground arith

-- A provider's status that is accepted changes neither the status nor the amount of a payout that
-- has succeeded or failed.
pub payout-stays :
    (now : ℕ) (status : PayoutStatus)
    (provider_reference provider_status failure_code failure_message : Option String)
    (payout payout' : Payout)
    → IsFinalPayout payout
    → apply_provider_status now status provider_reference provider_status failure_code
        failure_message payout
      ≡ ok payout'
    → (payout'.status ≡ payout.status) × (payout'.money ≡ payout.money)
unfolding apply_provider_status
payout-stays now status provider_reference provider_status failure_code failure_message payout
      payout' f h =
    ground arith
