-- ===== src/Payments/Payload.antt =====
-- The references that name a financial event, and the fields of payloads and fingerprints. Texts that
-- the source formats from a UUID are constructors: `reconciliation n` is f"reconciliation:{n}".
use diddi_pay_backend.Prelude.{ℕ, String, List}
use diddi_pay_backend.Prelude.Int.{ℤ}
use diddi_pay_backend.Payments.Entities.{Destination}

pub data EventReference : Type 0 where
  -- the provider's key of a webhook
  provider_event : String → EventReference
  -- f"reconciliation:{attempt.id}"
  reconciliation : ℕ → EventReference
  -- str(refund.id)
  refund_reference : ℕ → EventReference
  -- f"payout:{payout.id}:succeeded"
  payout_succeeded : ℕ → EventReference
  -- the bank's reference of a settlement
  settlement_reference : String → EventReference

pub data Scalar : Type 0 where
  missing : Scalar
  text : String → Scalar
  number : ℤ → Scalar
  uuid : ℕ → Scalar
  reference : EventReference → Scalar
  place : Destination → Scalar

-- A dictionary with literal keys.
abbrev pub Fields : Type 0
Fields = List (String × Scalar)
