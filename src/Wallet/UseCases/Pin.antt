-- ===== src/Wallet/UseCases/Pin.antt =====
-- The transaction PIN of payfund_app/modules/wallet/application/use_cases.py.
pub mod Verify
pub mod Set
pub mod Guesses
use diddi_pay_backend.Prelude.{
  ℕ, zero, suc, ◌-◌, Bool, false, not, ◌||◌, ◌&&◌, String, str_eq, concat, starts_with, ltb, Option,
  none, some, List, [], ◌∷◌, if◌then◌else◌, find_row,
}
use diddi_pay_backend.Wallet.Errors.{
  pin_required, pin_locked, invalid_pin, pins_differ, pin_already_set, recovery_code_invalid,
}
use diddi_pay_backend.Wallet.Store.{
  Account, TransactionPin, PinRecoveryCode, Action, pure, raise, lift, gets, branch, raise_if,
  ◌>>=◌, ◌>>◌,
}
use diddi_pay_backend.Wallet.Pins.{
  is_present, get_pin, set_pin, register_failure, clear_lock, store_hash, add_recovery_code,
  list_for_account, consume_code, add_audit, max_attempts,
}
use diddi_pay_backend.Wallet.Gateways.{Environment}
use diddi_pay_backend.Wallet.UseCases.{or_raise, draw, compte_de}
use diddi_pay_backend.Wallet.UseCases.Proofs.{StepUpProof, consume_step_up_proof}

abbrev pub is_argon : String → Bool
is_argon pin_hash = starts_with pin_hash "$argon2id$"

abbrev pub is_locked : ℕ → Option ℕ → Bool
is_locked now none = false
is_locked now (some until) = ltb now until

abbrev lock_end : Option ℕ → ℕ
lock_end none = 0
lock_end (some until) = until

-- `_ensure_password_policy`
unfoldable pub ensure_password_policy : String → String → Action (Unit {0})
ensure_password_policy pin confirm_pin = raise_if (not (str_eq pin confirm_pin)) pins_differ

module _ (env : Environment) where
  -- `_hash_pin`, `_legacy_pin_hash` and `_hash_recovery_code`
  unfoldable pub hash_pin : String → Action String
  hash_pin pin = do salt ← draw; pure (env.argon2_hash salt pin)

  unfoldable pub legacy_pin_hash : String → String → String
  legacy_pin_hash pin salt = env.sha256_hex (concat salt (concat ":" pin))

  unfoldable pub hash_recovery_code : String → String
  hash_recovery_code code = env.sha256_hex code

  unfoldable pub is_valid : TransactionPin → String → Bool
  is_valid row pin =
      if is_argon row.pin_hash
      then env.argon2_verify row.pin_hash pin
      else str_eq (legacy_pin_hash pin row.pin_salt) row.pin_hash

  -- After a wrong PIN.
  unfoldable pub refuse_pin : TransactionPin → Action (Unit {0})
  refuse_pin row = do
    attempts ← register_failure row
    raise (invalid_pin attempts (max_attempts - attempts))

  -- After the right PIN.
  unfoldable pub accept_pin : TransactionPin → String → Action (Unit {0})
  accept_pin row pin = do
    branch (not (is_argon row.pin_hash) || env.check_needs_rehash row.pin_hash)
        (hash_pin pin >>= λ pin_hash. store_hash row pin_hash "argon2id") (pure tt)
    clear_lock row

  -- `_verify_pin`
  unfoldable pub verify_pin : ℕ → String → Action (Unit {0})
  verify_pin account_id pin = do
    found ← gets (get_pin account_id)
    row ← lift (or_raise found pin_required)
    now ← gets (λ s. s.clock)
    raise_if (is_locked now row.locked_until) (pin_locked (lock_end row.locked_until))
    branch (is_valid row pin) (accept_pin row pin) (refuse_pin row)

  -- `verifier_pin_utilisateur`
  unfoldable pub verifier_pin_utilisateur : ℕ → String → Action (Unit {0})
  verifier_pin_utilisateur user_id pin = do account ← compte_de user_id; verify_pin account.id pin

  -- The loop that issues recovery codes.
  unfoldable pub issue_codes : ℕ → ℕ → Action (List String)
  issue_codes zero account_id = pure []
  issue_codes (suc n) account_id = do
    nonce ← draw
    add_recovery_code account_id (hash_recovery_code (env.token_urlsafe nonce))
    codes ← issue_codes n account_id
    pure (env.token_urlsafe nonce ∷ codes)

  abbrev pub codes_issued : ℕ
  codes_issued = 6

  -- `define_pin`
  unfoldable pub define_pin : ℕ → String → String → StepUpProof → Action (List String)
  define_pin user_id pin confirm_pin proof = do
    account ← compte_de user_id
    existing ← gets (get_pin account.id)
    raise_if (is_present existing) pin_already_set
    ensure_password_policy pin confirm_pin
    consume_step_up_proof proof user_id "wallet.pin.set"
    pin_hash ← hash_pin pin
    set_pin account.id pin_hash "argon2id"
    issue_codes codes_issued account.id

  -- `change_pin`
  unfoldable pub change_pin : ℕ → String → String → String → Action Account
  change_pin user_id current_pin new_pin confirm_new_pin = do
    account ← compte_de user_id
    ensure_password_policy new_pin confirm_new_pin
    verify_pin account.id current_pin
    pin_hash ← hash_pin new_pin
    set_pin account.id pin_hash "argon2id"
    pure account

  abbrev pub is_usable : String → PinRecoveryCode → Bool
  is_usable code_hash row = not (is_present row.consumed_at) && str_eq row.code_hash code_hash

  -- `reset_pin_with_recovery`
  unfoldable pub reset_pin_with_recovery : ℕ → String → String → String → Action Account
  reset_pin_with_recovery user_id recovery_code new_pin confirm_new_pin = do
    account ← compte_de user_id
    ensure_password_policy new_pin confirm_new_pin
    rows ← gets (list_for_account account.id)
    match ← lift (
        or_raise (find_row (is_usable (hash_recovery_code recovery_code)) rows)
          recovery_code_invalid)
    consume_code match
    pin_hash ← hash_pin new_pin
    set_pin account.id pin_hash "argon2id"
    pure account

  -- `admin_reset_pin`
  unfoldable pub admin_reset_pin : Option ℕ → ℕ → String → String → String → Action (List String)
  admin_reset_pin admin_user_id user_id new_pin confirm_new_pin reason = do
    account ← compte_de user_id
    ensure_password_policy new_pin confirm_new_pin
    pin_hash ← hash_pin new_pin
    set_pin account.id pin_hash "argon2id"
    codes ← issue_codes codes_issued account.id
    add_audit (record {
      account_id = account.id;
      actor_user_id = admin_user_id;
      action = "admin_reset_pin";
      reason = reason;
      recovery_codes_issued = codes_issued;
    })
    pure codes
