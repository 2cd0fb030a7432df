-- ===== src/Wallet/Pins.antt =====
-- The repositories of payfund_app/modules/wallet/infra/repositories.py that keep transaction PINs,
-- recovery codes and step-up proofs.
use diddi_pay_backend.Prelude.{
  ℕ, ◌+◌, ◌++◌, Bool, true, false, String, str_eq, Option, none, some, List, [], ◌∷◌, reverse, ◌==◌,
  leb, find_row, select_rows, update_rows, if◌then◌else◌,
}
use diddi_pay_backend.Wallet.Errors.{ok, integrity_error}
use diddi_pay_backend.Wallet.Store.{
  Store, TransactionPin, PinRecoveryCode, ConsumedStepUpProof, PinRecoveryAudit, Action, modify,
  raise, branch,
}

abbrev pub is_present {ℓ} : {A : Type ℓ} → Option A → Bool
is_present none = false
is_present (some _) = true

abbrev pub is_of_pin : ℕ → TransactionPin → Bool
is_of_pin account_id row = row.account_id == account_id

-- `TransactionPinRepository.get`
unfoldable pub get_pin : ℕ → Store → Option TransactionPin
get_pin account_id s = find_row (is_of_pin account_id) s.pins

abbrev pub fresh_pin : ℕ → String → String → TransactionPin
fresh_pin account_id pin_hash pin_salt = record {
  account_id = account_id;
  pin_hash = pin_hash;
  pin_salt = pin_salt;
  failed_attempts = 0;
  locked_until = none;
}

abbrev pub replace_pin : String → String → TransactionPin → TransactionPin
replace_pin pin_hash pin_salt row = record row {
  pin_hash = pin_hash;
  pin_salt = pin_salt;
  failed_attempts = 0;
  locked_until = none;
}

-- `TransactionPinRepository.set_pin`
unfoldable pub set_pin : ℕ → String → String → Action (Unit {0})
set_pin account_id pin_hash pin_salt s = (
  ok tt,
  record s {
    pins =
        if is_present (get_pin account_id s)
        then update_rows (is_of_pin account_id) (replace_pin pin_hash pin_salt) s.pins
        else s.pins ++ fresh_pin account_id pin_hash pin_salt ∷ [];
  },
)

abbrev pub max_attempts : ℕ
max_attempts = 5

-- `lock_minutes`, in seconds
abbrev pub lock_seconds : ℕ
lock_seconds = 900

abbrev pub one_more_failure : ℕ → TransactionPin → TransactionPin
one_more_failure now row =
    if leb max_attempts (row.failed_attempts + 1)
    then record row {
      failed_attempts = row.failed_attempts + 1;
      locked_until = some (now + lock_seconds);
    }
    else record row { failed_attempts = row.failed_attempts + 1 }

-- `TransactionPinRepository.register_failure`: the count of failures, with this one.
unfoldable pub register_failure : TransactionPin → Action ℕ
register_failure row s = (
  ok (row.failed_attempts + 1),
  record s { pins = update_rows (is_of_pin row.account_id) (one_more_failure s.clock) s.pins },
)

abbrev pub unlocked : TransactionPin → TransactionPin
unlocked row = record row { failed_attempts = 0; locked_until = none }

-- `TransactionPinRepository.clear_lock`
unfoldable pub clear_lock : TransactionPin → Action (Unit {0})
clear_lock row =
    modify (λ s. record s { pins = update_rows (is_of_pin row.account_id) unlocked s.pins })

abbrev pub rehash : String → String → TransactionPin → TransactionPin
rehash pin_hash pin_salt row = record row { pin_hash = pin_hash; pin_salt = pin_salt }

-- `row.pin_hash = ...; row.pin_salt = ...`
unfoldable pub store_hash : TransactionPin → String → String → Action (Unit {0})
store_hash row pin_hash pin_salt = modify (λ s. record s {
  pins = update_rows (is_of_pin row.account_id) (rehash pin_hash pin_salt) s.pins;
})

abbrev pub has_code_hash : String → PinRecoveryCode → Bool
has_code_hash code_hash row = str_eq row.code_hash code_hash

-- `TransactionPinRecoveryCodeRepository.add`; the hashes are unique.
unfoldable pub add_recovery_code : ℕ → String → Action (Unit {0})
add_recovery_code account_id code_hash s =
    branch (is_present (find_row (has_code_hash code_hash) s.recovery_codes))
      (raise integrity_error)
      (modify (λ t. record t {
        recovery_codes =
            t.recovery_codes
            ++ record { account_id = account_id; code_hash = code_hash; consumed_at = none } ∷ [];
      }))
      s

-- `TransactionPinRecoveryCodeRepository.list_for_account`, the newest first
unfoldable pub list_for_account : ℕ → Store → List PinRecoveryCode
list_for_account account_id s =
    reverse (select_rows (λ row. row.account_id == account_id) s.recovery_codes)

-- `match.consumed_at = datetime.now(...)`; the hash of a code is its key.
unfoldable pub consume_code : PinRecoveryCode → Action (Unit {0})
consume_code code = modify (λ s. record s {
  recovery_codes =
      update_rows (has_code_hash code.code_hash) (λ row. record row { consumed_at = some s.clock })
        s.recovery_codes;
})

-- `ConsumedStepUpProofRepository.get`
unfoldable pub get_proof : ℕ → Store → Option ConsumedStepUpProof
get_proof jti s = find_row (λ row. row.jti == jti) s.consumed_proofs

-- `ConsumedStepUpProofRepository.add`; `jti` is the primary key.
unfoldable pub add_proof : ConsumedStepUpProof → Action (Unit {0})
add_proof proof s =
    branch (is_present (get_proof proof.jti s)) (raise integrity_error)
      (modify (λ t. record t { consumed_proofs = t.consumed_proofs ++ proof ∷ [] })) s

-- `PinRecoveryAuditRepository.add`
unfoldable pub add_audit : PinRecoveryAudit → Action (Unit {0})
add_audit audit = modify (λ s. record s { recovery_audits = s.recovery_audits ++ audit ∷ [] })
