-- ===== src/Wallet/Gateways.antt =====
-- payfund_app/modules/wallet/infra/gateways.py: the adapters of the payment gateways, the simulated ones
-- in full. The adapters that speak HTTP, the hashes and the secrets are the fields of an `Environment`.
use diddi_pay_backend.Prelude.{
  ℕ, ◌++◌, Bool, true, false, String, str_eq, mem_text, concat, Option, none, some, List, [], ◌∷◌,
  if◌then◌else◌, find_row,
}
use diddi_pay_backend.Wallet.Errors.{Result, ok, err, not_implemented, integrity_error}
use diddi_pay_backend.Wallet.Pins.{is_present}
use diddi_pay_backend.Wallet.Store.{Store, GatewayAccount, Action, modify, raise, branch}

pub data GatewayStatus : Type 0 where
  pending completed failed : GatewayStatus

pub record GatewayOperation : Type 0 where
  pub provider_reference : String
  pub status : GatewayStatus
  pub authorization_url : Option String
  pub access_code : Option String
  pub amount : Option ℕ
  pub currency : Option String

-- What a call of a gateway ends in: an operation, `NotImplementedError` or another exception.
pub data Answer : Type 0 where
  operation : GatewayOperation → Answer
  unsupported unavailable : Answer

-- `PaymentGatewayPort`; the arguments are those of the methods, in their order.
pub record Gateway : Type 0 where
  pub mode : String
  pub supports_withdrawal : String → Bool
  pub initier_depot : String → String → Option String → ℕ → String → Answer
  pub initier_retrait : String → String → ℕ → String → Answer
  pub verifier_depot : String → Answer
  pub verifier_retrait : String → Answer

-- Hashes and secrets of Python packages (`argon2`, `hashlib`, `secrets`), the text of a UUID, the
-- settings, and the adapters of Paystack and pawaPay. The number that `argon2_hash` and `token_urlsafe`
-- take stands for their randomness.
pub record Environment : Type 0 where
  pub argon2_hash : ℕ → String → String
  pub argon2_verify : String → String → Bool
  pub check_needs_rehash : String → Bool
  pub sha256_hex : String → String
  pub token_urlsafe : ℕ → String
  pub uuid_text : ℕ → String
  pub payment_gateway_mode : String
  pub payment_gateway_autoconfirm : Bool
  pub paystack : Result Gateway
  pub pawapay : Result Gateway
  pub step_up_threshold_xof : Option ℕ
  pub has_bus : Bool

-- `PROVIDERS`
abbrev providers : List String
providers = "paystack" ∷ "orange_money" ∷ "mtn_momo" ∷ "wave" ∷ "moov" ∷ "card_gateway" ∷ []

abbrev settled : Bool → GatewayStatus
settled true = completed
settled false = pending

abbrev answer : Bool → String → Answer
answer autoconfirm reference = operation (record {
  provider_reference = reference;
  status = settled autoconfirm;
  authorization_url = none;
  access_code = none;
  amount = none;
  currency = none;
})

-- `StubGateway`, `fresh` being the text of a new UUID
unfoldable pub stub_gateway : Bool → String → Gateway
stub_gateway autoconfirm fresh = record {
  mode = "stub";
  supports_withdrawal = λ provider. mem_text provider providers;
  initier_depot =
      λ provider phone email montant reference. answer autoconfirm (concat "stub-" fresh);
  initier_retrait = λ provider phone montant reference. answer autoconfirm (concat "stub-" fresh);
  verifier_depot = λ reference. answer autoconfirm (concat "stub-" fresh);
  verifier_retrait = λ reference. answer autoconfirm (concat "stub-" fresh);
}

-- What the two sandboxes have in common: one provider, which they ensure first.
abbrev sandbox : String → String → String → Bool → String → Gateway
sandbox sandbox_mode provider_name prefix autoconfirm fresh = record {
  mode = sandbox_mode;
  supports_withdrawal = λ provider. str_eq provider provider_name;
  initier_depot = λ provider phone email montant reference.
      if str_eq provider provider_name
      then answer autoconfirm (concat prefix (concat "-sandbox-deposit-" fresh))
      else unsupported;
  initier_retrait = λ provider phone montant reference.
      if str_eq provider provider_name
      then answer autoconfirm (concat prefix (concat "-sandbox-withdraw-" fresh))
      else unsupported;
  verifier_depot = λ reference. answer autoconfirm reference;
  verifier_retrait = λ reference. answer autoconfirm reference;
}

-- `OrangeMoneySandboxGateway` and `WaveSandboxGateway`
unfoldable pub orange_money_sandbox : Bool → String → Gateway
orange_money_sandbox = sandbox "sandbox_orange_money" "orange_money" "orange-money"

unfoldable pub wave_sandbox : Bool → String → Gateway
wave_sandbox = sandbox "sandbox_wave" "wave" "wave"

-- `gateway_for_mode`
unfoldable pub gateway_for_mode : Environment → String → String → Result Gateway
gateway_for_mode env fresh mode =
    if str_eq mode "stub"
    then ok (stub_gateway env.payment_gateway_autoconfirm fresh)
    else if str_eq mode "sandbox_orange_money"
    then ok (orange_money_sandbox env.payment_gateway_autoconfirm fresh)
    else if str_eq mode "sandbox_wave"
    then ok (wave_sandbox env.payment_gateway_autoconfirm fresh)
    else if str_eq mode "paystack"
    then env.paystack
    else if str_eq mode "pawapay"
    then env.pawapay
    else err not_implemented

-- `get_gateway`
unfoldable pub get_gateway : Environment → String → Result Gateway
get_gateway env fresh = gateway_for_mode env fresh env.payment_gateway_mode

-- `_DEDICATED_PROVIDER_MODES.get`
unfoldable pub dedicated_mode : String → Option String
dedicated_mode provider =
    if str_eq provider "paystack"
    then some "paystack"
    else if str_eq provider "card_gateway"
    then some "paystack"
    else none

abbrev mode_or : Environment → String → Option String → Result Gateway → Result Gateway
mode_or env fresh none fallback = fallback
mode_or env fresh (some mode) (ok _) = gateway_for_mode env fresh mode
mode_or env fresh (some mode) (err e) = err e

-- `gateway_for_provider`, with `self.gateway` as the fallback, which is computed first
unfoldable pub gateway_for_provider : Environment → String → String → Result Gateway
gateway_for_provider env fresh provider =
    mode_or env fresh (dedicated_mode provider) (get_gateway env fresh)

-- `GatewayAccountRepository.account_id_for`
unfoldable pub account_id_for : String → Store → Option GatewayAccount
account_id_for provider s = find_row (λ row. str_eq row.provider provider) s.gateway_accounts

-- `GatewayAccountRepository.register`; the providers are unique.
unfoldable pub register_gateway : String → ℕ → Action (Unit {0})
register_gateway provider account_id s =
    branch (is_present (account_id_for provider s)) (raise integrity_error)
      (modify (λ t. record t {
        gateway_accounts =
            t.gateway_accounts ++ record { provider = provider; account_id = account_id } ∷ [];
      }))
      s
