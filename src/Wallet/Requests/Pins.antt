-- ===== src/Wallet/Requests/Pins.antt =====
-- The requests of payfund_app/modules/wallet that read and write PINs maintain what the PIN repository does.
use diddi_pay_backend.Prelude.{ℕ, zero, suc, String, Option}
use diddi_pay_backend.Wallet.Store.{Store, TransactionPin}
use diddi_pay_backend.Wallet.Pins.{register_failure}
use diddi_pay_backend.Wallet.Store.Maintains.{Maintains, Maintains-bind, maintains_rules}
use diddi_pay_backend.Wallet.Gateways.{Environment}
use diddi_pay_backend.Wallet.UseCases.{draw}
use diddi_pay_backend.Wallet.UseCases.Proofs.{StepUpProof}
use diddi_pay_backend.Wallet.UseCases.Pin.{
  ensure_password_policy, hash_pin, refuse_pin, accept_pin, verify_pin, verifier_pin_utilisateur,
  issue_codes, define_pin, change_pin, reset_pin_with_recovery, admin_reset_pin,
}
use diddi_pay_backend.Wallet.Requests.Laws.{Invariant, Frames-Maintains}
use diddi_pay_backend.Wallet.Requests.Accounts.{
  frame_rules, draw-Frames, add_recovery_code-Frames, compte_de-Maintains,
  consume_step_up_proof-Maintains,
}

module _ {I : Store → Type 0} (laws : Invariant I) (env : Environment) where
  open laws use {sets_pin, clears_lock, stores_hash}

  hash_pin-Maintains : (pin : String) → Maintains I (hash_pin env pin)
  unfolding hash_pin
  hash_pin-Maintains pin = search (maintains_rules, Frames-Maintains laws, frame_rules) depth 8

  ensure_password_policy-Maintains :
      (pin confirm : String) → Maintains I (ensure_password_policy pin confirm)
  unfolding ensure_password_policy
  ensure_password_policy-Maintains pin confirm = search maintains_rules

  -- It raises, so the request takes back the failure that it counted.
  refuse_pin-Maintains : (row : TransactionPin) → Maintains I (refuse_pin env row)
  unfolding refuse_pin register_failure
  refuse_pin-Maintains row = record { at = λ s h. tt }

  pub verify_pin-Maintains :
      (account_id : ℕ) (pin : String) → Maintains I (verify_pin env account_id pin)
  unfolding verify_pin accept_pin
  verify_pin-Maintains account_id pin =
      search (maintains_rules, hash_pin-Maintains, stores_hash, clears_lock, refuse_pin-Maintains)
        depth 14

  pub verifier_pin_utilisateur-Maintains :
      (user_id : ℕ) (pin : String) → Maintains I (verifier_pin_utilisateur env user_id pin)
  unfolding verifier_pin_utilisateur
  verifier_pin_utilisateur-Maintains user_id pin =
      search (maintains_rules, compte_de-Maintains laws, verify_pin-Maintains)

  issue_codes-Maintains : (n account_id : ℕ) → Maintains I (issue_codes env n account_id)
  unfolding issue_codes
  issue_codes-Maintains zero account_id = record { at = λ s h. h }
  issue_codes-Maintains (suc n) account_id =
      Maintains-bind draw _ (Frames-Maintains laws _ draw-Frames) (λ nonce.
        Maintains-bind _ _ (Frames-Maintains laws _ (add_recovery_code-Frames account_id _))
          (λ _. search (maintains_rules, issue_codes-Maintains n account_id)))

  pub define_pin-Maintains :
      (user_id : ℕ) (pin confirm : String) (proof : StepUpProof)
      → Maintains I (define_pin env user_id pin confirm proof)
  unfolding define_pin
  define_pin-Maintains user_id pin confirm proof =
      search
        (
          maintains_rules,
          compte_de-Maintains laws,
          ensure_password_policy-Maintains,
          consume_step_up_proof-Maintains laws,
          hash_pin-Maintains,
          sets_pin,
          issue_codes-Maintains,
        )
        depth 20

  pub change_pin-Maintains :
      (user_id : ℕ) (current pin confirm : String)
      → Maintains I (change_pin env user_id current pin confirm)
  unfolding change_pin
  change_pin-Maintains user_id current pin confirm =
      search
        (
          maintains_rules,
          compte_de-Maintains laws,
          ensure_password_policy-Maintains,
          verify_pin-Maintains,
          hash_pin-Maintains,
          sets_pin,
        )
        depth 20

  pub reset_pin_with_recovery-Maintains :
      (user_id : ℕ) (code pin confirm : String)
      → Maintains I (reset_pin_with_recovery env user_id code pin confirm)
  unfolding reset_pin_with_recovery
  reset_pin_with_recovery-Maintains user_id code pin confirm =
      search
        (
          maintains_rules,
          compte_de-Maintains laws,
          ensure_password_policy-Maintains,
          Frames-Maintains laws,
          frame_rules,
          hash_pin-Maintains,
          sets_pin,
        )
        depth 20

  pub admin_reset_pin-Maintains :
      (admin : Option ℕ) (user_id : ℕ) (pin confirm reason : String)
      → Maintains I (admin_reset_pin env admin user_id pin confirm reason)
  unfolding admin_reset_pin
  admin_reset_pin-Maintains admin user_id pin confirm reason =
      search
        (
          maintains_rules,
          compte_de-Maintains laws,
          ensure_password_policy-Maintains,
          Frames-Maintains laws,
          frame_rules,
          hash_pin-Maintains,
          sets_pin,
          issue_codes-Maintains,
        )
        depth 20
