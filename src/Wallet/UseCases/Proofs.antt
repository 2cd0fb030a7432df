-- ===== src/Wallet/UseCases/Proofs.antt =====
-- The step-up proofs of payfund_app/modules/wallet/application/use_cases.py.
use diddi_pay_backend.Prelude.{ℕ, not, ◌||◌, String, str_eq, Option, none, some, ◌==◌}
use diddi_pay_backend.Prelude.Int.{ℤ, pos, ltb_ℤ}
use diddi_pay_backend.Wallet.Errors.{
  Result, ok, err, integrity_error, runtime_error, step_up_proof_invalid,
  step_up_proof_already_used, step_up_otp_required,
}
use diddi_pay_backend.Wallet.Store.{
  Store, ConsumedStepUpProof, Action, pure, raise, gets, branch, raise_if, ◌>>=◌, ◌>>◌,
}
use diddi_pay_backend.Wallet.Pins.{is_present, get_proof, add_proof}
use diddi_pay_backend.Wallet.Gateways.{Environment}

-- `StepUpProof` of payfund_app/core/security.py
pub record StepUpProof : Type 0 where
  pub jti : ℕ
  pub user_id : ℕ
  pub purpose : String
  pub expires_at : ℕ

-- After the savepoint: an `IntegrityError` means that the proof was used meanwhile.
abbrev settle_proof : Store → Result (Unit {0}) → Action (Unit {0})
settle_proof saved (ok _) s = (ok tt, s)
settle_proof saved (err integrity_error) s = (err step_up_proof_already_used, saved)
settle_proof saved (err e) s = (err e, saved)

abbrev pub nested_proof : Action (Unit {0}) → Action (Unit {0})
nested_proof action s = let (r, s') = action s in settle_proof s r s'

abbrev pub consumed : StepUpProof → ℕ → String → ConsumedStepUpProof
consumed proof user_id purpose = record {
  jti = proof.jti;
  user_id = user_id;
  purpose = purpose;
  expires_at = proof.expires_at;
}

-- `_consume_step_up_proof`
unfoldable pub consume_step_up_proof : StepUpProof → ℕ → String → Action (Unit {0})
consume_step_up_proof proof user_id purpose = do
  raise_if (not (proof.user_id == user_id) || not (str_eq proof.purpose purpose))
      step_up_proof_invalid
  used ← gets (get_proof proof.jti)
  raise_if (is_present used) step_up_proof_already_used
  nested_proof (add_proof (consumed proof user_id purpose))

abbrev pub high_value : String
high_value = "wallet.transfer.high_value"

abbrev with_proof : ℕ → Option StepUpProof → Action (Unit {0})
with_proof user_id none = raise step_up_otp_required
with_proof user_id (some proof) = consume_step_up_proof proof user_id high_value

abbrev pub above : Option ℕ → ℕ → ℤ → Option StepUpProof → Action (Unit {0})
above none user_id amount proof = raise runtime_error
above (some threshold) user_id amount proof =
    branch (ltb_ℤ amount (pos threshold)) (pure tt) (with_proof user_id proof)

-- `_require_transfer_step_up`
unfoldable pub require_transfer_step_up :
    Environment → ℕ → ℤ → Option StepUpProof → Action (Unit {0})
require_transfer_step_up env = above env.step_up_threshold_xof
