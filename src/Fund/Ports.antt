-- ===== src/Fund/Ports.antt =====
-- The ports that payfund_app/modules/fund calls: `WalletServicePort`
-- (payfund_app/shared_kernel/contracts/wallet_provider.py), `ScoringPort` and `PaymentOrchestratorPort`.
pub mod Contract
use diddi_pay_backend.Prelude.{ℕ, String, Option}
use diddi_pay_backend.Prelude.Int.{ℤ}
use diddi_pay_backend.Prelude.Actions.{Result as Outcome}
use diddi_pay_backend.Prelude.Decimals.{Decimal}
use diddi_pay_backend.Wallet.Errors.{Result}
use diddi_pay_backend.Wallet.Entities.{TransactionType}
use diddi_pay_backend.Fund.Tables.{FundError}

-- The wallet as a state with operations; the arguments are those of the methods, in their order.
pub record WalletServicePort (W : Type 0) : Type 0 where
  pub verifier_pin_utilisateur : ℕ → String → W → Result (Unit {0}) × W
  pub debiter : ℕ → ℕ → ℤ → String → String → TransactionType → Option String → W → Result ℕ × W
  pub crediter : ℕ → ℕ → ℤ → String → String → TransactionType → Option String → W → Result ℕ × W
  pub ouvrir_compte_technique : String → W → Result ℕ × W
  pub solde : ℕ → W → ℤ
  pub compte_de_utilisateur : ℕ → W → Result ℕ × W

-- `ScoringPort`
pub record ScoringPort : Type 0 where
  pub taux_pour : ℕ → Decimal
  pub score_de : ℕ → Option ℕ

pub record FundPaymentAction : Type 0 where
  pub action_type : String
  pub url : Option String
  pub instructions : Option String

pub record FundPaymentResult : Type 0 where
  pub payment_intent_id : ℕ
  pub status : String
  pub next_action : Option FundPaymentAction

-- What `create_collection` is given.
pub record CollectionRequest : Type 0 where
  pub business_reference : String
  pub amount : ℤ
  pub currency : String
  pub payer_user_id : ℕ
  pub idempotency_key : String
  pub channel : Option String
  pub network : Option String
  pub customer_email : Option String
  pub customer_phone : Option String
  pub callback_url : Option String
  pub campaign_id : ℕ

-- `PaymentOrchestratorPort`; each call may raise.
pub record PaymentOrchestratorPort : Type 0 where
  pub create_collection : CollectionRequest → Outcome FundError FundPaymentResult
  pub get_collection : ℕ → Outcome FundError FundPaymentResult
