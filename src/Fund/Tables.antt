-- ===== src/Fund/Tables.antt =====
-- The tables of payfund_app/modules/fund/infra/models.py beside a wallet, which shares their transaction,
-- and the exceptions of payfund_app/modules/fund/domain/errors.py.
use diddi_pay_backend.Prelude.{ℕ, String, Option, List}
use diddi_pay_backend.Prelude.Int.{ℤ}
use diddi_pay_backend.Prelude.Decimals.{Decimal}
use diddi_pay_backend.Wallet.Errors.{Error as WalletError}
use diddi_pay_backend.Fund.Loan.{Date}
use diddi_pay_backend.Fund.Status.{CampaignStatus, LoanStatus, InstallmentStatus}

-- `value_error` is a `ValueError` with a code, `lookup_error` a `LookupError`; `wallet_error` is an exception
-- of the wallet, and `integrity_error` one of the database.
pub data FundError : Type 0 where
  campaign_not_found campaign_not_active campaign_goal_already_reached : FundError
  cannot_invest_in_own_campaign : FundError
  loan_not_found invalid_loan_terms not_campaign_owner installment_already_paid : FundError
  repayment_exceeds_installment loan_not_disbursed loan_already_disbursed : FundError
  value_error : String → FundError
  lookup_error runtime_error integrity_error : FundError
  wallet_error : WalletError → FundError

pub record Campaign : Type 0 where
  pub id : ℕ
  pub owner_user_id : ℕ
  pub title : String
  pub goal_amount : ℤ
  pub raised_amount : ℤ
  pub currency : String
  pub status : CampaignStatus
  pub wallet_account_id : ℕ

pub record Investment : Type 0 where
  pub id : ℕ
  pub campaign_id : ℕ
  pub investor_user_id : ℕ
  pub amount : ℤ
  pub wallet_transaction_id : Option ℕ
  pub payment_intent_id : Option ℕ

pub record Loan : Type 0 where
  pub id : ℕ
  pub campaign_id : ℕ
  pub borrower_user_id : ℕ
  pub principal_amount : ℕ
  pub duration_months : ℕ
  pub interest_rate_applied : Decimal
  pub total_repayable : ℕ
  pub currency : String
  pub diddi_score_at_grant : Option ℕ
  pub status : LoanStatus
  pub disbursed_at : Option ℕ
  pub wallet_transaction_id : Option ℕ

pub record RepaymentSchedule : Type 0 where
  pub id : ℕ
  pub loan_id : ℕ
  pub installment_no : ℕ
  pub due_date : Date
  pub amount_due : ℤ
  pub amount_paid : ℤ
  pub status : InstallmentStatus
  pub paid_at : Option ℕ

pub record LoanStatusHistory : Type 0 where
  pub loan_id : ℕ
  pub from_status : Option LoanStatus
  pub to_status : LoanStatus

pub record FundPaymentOrder : Type 0 where
  pub id : ℕ
  pub operation_type : String
  pub business_reference : String
  pub payer_user_id : ℕ
  pub campaign_id : Option ℕ
  pub payment_intent_id : ℕ
  pub idempotency_key : String
  pub amount : ℤ
  pub currency : String
  pub status : String
  pub completed_at : Option ℕ

-- The rows of `FundPaymentEventInbox` are kept by their identifiers alone.
pub record Tables (W : Type 0) : Type 0 where
  pub wallet : W
  pub campaigns : List Campaign
  pub investments : List Investment
  pub loans : List Loan
  pub schedule : List RepaymentSchedule
  pub history : List LoanStatusHistory
  pub orders : List FundPaymentOrder
  pub inbox : List ℕ
  pub clock : ℕ
  pub next_id : ℕ
