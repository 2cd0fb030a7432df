-- ===== src/Wallet/Requests/Accounts.antt =====
-- The operations of payfund_app/modules/wallet that write neither entries nor PINs.
use diddi_pay_backend.Prelude.{
  ℕ, refl, Bool, true, false, String, Option, none, some, Bool-cases, inl, inr, find_row,
}
use diddi_pay_backend.Prelude.Int.{ℤ}
use diddi_pay_backend.Wallet.Errors.{Error}
use diddi_pay_backend.Wallet.Money.{Money, Currency}
use diddi_pay_backend.Wallet.Entities.{AccountType, TransactionType, TransactionStatus}
use diddi_pay_backend.Wallet.Store.{
  Store, Account, Transaction, TransactionKey, PinRecoveryCode, ConsumedStepUpProof,
  PinRecoveryAudit, PaymentCompleted, GatewayAccount, Action, branch, raise, create_account,
  create_transaction, assign, mark, get_by_idempotency_key, is_taken,
}
use diddi_pay_backend.Wallet.Store.Maintains.{Maintains, maintains_rules}
use diddi_pay_backend.Wallet.Pins.{
  is_present, add_recovery_code, consume_code, add_proof, add_audit, has_code_hash, get_proof,
}
use diddi_pay_backend.Wallet.Gateways.{register_gateway, account_id_for}
use diddi_pay_backend.Wallet.UseCases.{
  draw, existing_or, provisionner_compte, provisionner_compte_marchand, compte_de, consulter_solde,
  consulter_transaction, enqueue, publish, publish_completed,
}
use diddi_pay_backend.Wallet.UseCases.Proofs.{
  StepUpProof, nested_proof, consume_step_up_proof, require_transfer_step_up, above,
}
use diddi_pay_backend.Wallet.UseCases.Operations.{compte_suspense, new_suspense, known_suspense}
use diddi_pay_backend.Wallet.Gateways.{Environment}
use diddi_pay_backend.Wallet.Requests.Laws.{Invariant, Frames, Frames-Maintains}

Frames-branch :
    {A : Type 0} (b : Bool) (m n : Action A) → Frames m → Frames n → Frames (branch b m n)
Frames-branch true m n f g = record { entries = f.entries; pins = f.pins }
Frames-branch false m n f g = record { entries = g.entries; pins = g.pins }

Frames-raise : {A : Type 0} (e : Error) → Frames (raise {A = A} e)
Frames-raise e = record { entries = λ s. refl; pins = λ s. refl }

pub draw-Frames : Frames draw
unfolding draw
draw-Frames = record { entries = λ s. refl; pins = λ s. refl }

pub create_account-Frames :
    (user_id : Option ℕ) (type : AccountType) (currency : Currency) (reference : Option String)
    (allows : Bool)
    → Frames (create_account user_id type currency reference allows)
unfolding create_account
create_account-Frames user_id type currency reference allows = record {
  entries = λ s. refl;
  pins = λ s. refl;
}

pub assign-Frames : (id : ℕ) (f : Transaction → Transaction) → Frames (assign id f)
unfolding assign
assign-Frames id f = record { entries = λ s. refl; pins = λ s. refl }

pub mark-Frames : (id : ℕ) (status : TransactionStatus) → Frames (mark id status)
unfolding mark
mark-Frames id status = record { entries = λ s. refl; pins = λ s. refl }

pub create_transaction-Frames :
    (type : TransactionType) (status : TransactionStatus) (origin : Option String)
    (key : TransactionKey) (at : Option ℕ) (account_id : Option ℕ) (money : Option Money)
    (reverses : Option ℕ)
    → Frames (create_transaction type status origin key at account_id money reverses)
unfolding create_transaction
create_transaction-Frames type status origin key at account_id money reverses = record {
  entries = λ s. elim (Bool-cases (is_taken (get_by_idempotency_key key s))) [
    | inl taken ↦ rw taken refl
    | inr free ↦ rw free refl
  ];
  pins = λ s. elim (Bool-cases (is_taken (get_by_idempotency_key key s))) [
    | inl taken ↦ rw taken refl
    | inr free ↦ rw free refl
  ];
}

pub register_gateway-Frames :
    (provider : String) (account_id : ℕ) → Frames (register_gateway provider account_id)
unfolding register_gateway
register_gateway-Frames provider account_id = record {
  entries = λ s. elim (Bool-cases (is_present (account_id_for provider s))) [
    | inl taken ↦ rw taken refl
    | inr free ↦ rw free refl
  ];
  pins = λ s. elim (Bool-cases (is_present (account_id_for provider s))) [
    | inl taken ↦ rw taken refl
    | inr free ↦ rw free refl
  ];
}

pub add_recovery_code-Frames :
    (account_id : ℕ) (code_hash : String) → Frames (add_recovery_code account_id code_hash)
unfolding add_recovery_code
add_recovery_code-Frames account_id code_hash = record {
  entries = λ s.
      elim (Bool-cases (is_present (find_row (has_code_hash code_hash) s.recovery_codes))) [
        | inl taken ↦ rw taken refl
        | inr free ↦ rw free refl
      ];
  pins = λ s. elim (Bool-cases (is_present (find_row (has_code_hash code_hash) s.recovery_codes))) [
    | inl taken ↦ rw taken refl
    | inr free ↦ rw free refl
  ];
}

pub consume_code-Frames : (code : PinRecoveryCode) → Frames (consume_code code)
unfolding consume_code
consume_code-Frames code = record { entries = λ s. refl; pins = λ s. refl }

pub add_audit-Frames : (audit : PinRecoveryAudit) → Frames (add_audit audit)
unfolding add_audit
add_audit-Frames audit = record { entries = λ s. refl; pins = λ s. refl }

pub enqueue-Frames : (event : PaymentCompleted) → Frames (enqueue event)
unfolding enqueue
enqueue-Frames event = record { entries = λ s. refl; pins = λ s. refl }

pub publish-Frames : (event : PaymentCompleted) → Frames (publish event)
unfolding publish
publish-Frames event = record { entries = λ s. refl; pins = λ s. refl }

pub nested_proof-Frames : (proof : ConsumedStepUpProof) → Frames (nested_proof (add_proof proof))
unfolding add_proof
nested_proof-Frames proof = record {
  entries = λ s. elim (Bool-cases (is_present (get_proof proof.jti s))) [
    | inl taken ↦ rw taken refl
    | inr free ↦ rw free refl
  ];
  pins = λ s. elim (Bool-cases (is_present (get_proof proof.jti s))) [
    | inl taken ↦ rw taken refl
    | inr free ↦ rw free refl
  ];
}

pub ruleset frame_rules = (
  draw-Frames, create_account-Frames, assign-Frames, mark-Frames, create_transaction-Frames,
  register_gateway-Frames, add_recovery_code-Frames, consume_code-Frames, add_audit-Frames,
  enqueue-Frames, publish-Frames, nested_proof-Frames,
)

module _ {I : Store → Type 0} (laws : Invariant I) where
  existing_or-Maintains :
      (o : Option Account) (m : Action Account) → Maintains I m → Maintains I (existing_or o m)
  existing_or-Maintains none m h = record { at = h.at }
  existing_or-Maintains (some a) m h = record { at = λ s i. i }

  pub provisionner_compte-Maintains : (user_id : ℕ) → Maintains I (provisionner_compte user_id)
  unfolding provisionner_compte
  provisionner_compte-Maintains user_id =
      search (maintains_rules, existing_or-Maintains, Frames-Maintains laws, frame_rules) depth 12

  pub provisionner_compte_marchand-Maintains :
      (user_id : ℕ) → Maintains I (provisionner_compte_marchand user_id)
  unfolding provisionner_compte_marchand
  provisionner_compte_marchand-Maintains user_id =
      search (maintains_rules, existing_or-Maintains, Frames-Maintains laws, frame_rules) depth 12

  pub compte_de-Maintains : (user_id : ℕ) → Maintains I (compte_de user_id)
  unfolding compte_de
  compte_de-Maintains user_id =
      search (maintains_rules, existing_or-Maintains, provisionner_compte-Maintains) depth 12

  pub consulter_solde-Maintains : (user_id : ℕ) → Maintains I (consulter_solde user_id)
  unfolding consulter_solde
  consulter_solde-Maintains user_id = search (maintains_rules, compte_de-Maintains) depth 12

  pub consulter_transaction-Maintains :
      (user_id transaction_id : ℕ) → Maintains I (consulter_transaction user_id transaction_id)
  unfolding consulter_transaction
  consulter_transaction-Maintains user_id transaction_id =
      search (maintains_rules, compte_de-Maintains) depth 16

  pub publish_completed-Maintains :
      (has_bus : Bool) (t : Transaction) (amount : Money)
      → Maintains I (publish_completed has_bus t amount)
  unfolding publish_completed
  publish_completed-Maintains has_bus t amount =
      search (maintains_rules, Frames-Maintains laws, frame_rules) depth 12

  pub consume_step_up_proof-Maintains :
      (proof : StepUpProof) (user_id : ℕ) (purpose : String)
      → Maintains I (consume_step_up_proof proof user_id purpose)
  unfolding consume_step_up_proof
  consume_step_up_proof-Maintains proof user_id purpose =
      search (maintains_rules, Frames-Maintains laws, frame_rules) depth 16

  pub require_transfer_step_up-Maintains :
      (env : Environment) (user_id : ℕ) (amount : ℤ) (proof : Option StepUpProof)
      → Maintains I (require_transfer_step_up env user_id amount proof)
  unfolding require_transfer_step_up
  require_transfer_step_up-Maintains env user_id amount proof =
      of_threshold env.step_up_threshold_xof proof
    where
      of_threshold :
          (threshold : Option ℕ) (proof : Option StepUpProof)
          → Maintains I (above threshold user_id amount proof)
      of_threshold none proof = record { at = λ s h. tt }
      of_threshold (some threshold) none = search maintains_rules
      of_threshold (some threshold) (some p) =
          search (maintains_rules, consume_step_up_proof-Maintains)

  pub compte_suspense-Maintains :
      (mode : String) (currency : Currency) → Maintains I (compte_suspense mode currency)
  unfolding compte_suspense
  compte_suspense-Maintains mode currency = search (maintains_rules, known) depth 8
    where
      known :
          (o : Option GatewayAccount) → Maintains I (known_suspense o (new_suspense mode currency))
      known none = search (maintains_rules, Frames-Maintains laws, frame_rules) depth 12
      known (some row) = record { at = λ s h. h }
