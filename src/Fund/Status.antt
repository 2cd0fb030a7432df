-- ===== src/Fund/Status.antt =====
-- The statuses of payfund_app/modules/fund/domain/entities.py.
use diddi_pay_backend.Prelude.{ℕ, ◌≡◌, String, StrEnum, arith}

pub data CampaignStatus : Type 0 where
  draft active closed cancelled : CampaignStatus

pub data LoanStatus : Type 0 where
  pending disbursed repaying closed defaulted : LoanStatus

pub data InstallmentStatus : Type 0 where
  due paid late defaulted : InstallmentStatus

abbrev campaign_rank : CampaignStatus → ℕ
campaign_rank CampaignStatus.draft = 0
campaign_rank CampaignStatus.active = 1
campaign_rank CampaignStatus.closed = 2
campaign_rank CampaignStatus.cancelled = 3

abbrev campaign_value : CampaignStatus → String
campaign_value CampaignStatus.draft = "draft"
campaign_value CampaignStatus.active = "active"
campaign_value CampaignStatus.closed = "closed"
campaign_value CampaignStatus.cancelled = "cancelled"

pub campaign_rank_injective : (a b : CampaignStatus) → campaign_rank a ≡ campaign_rank b → a ≡ b
campaign_rank_injective a b h = ground arith

instance abbrev pub campaign_enum : StrEnum CampaignStatus
campaign_enum = record {
  rank = campaign_rank;
  value = campaign_value;
  rank_injective = campaign_rank_injective;
}

abbrev loan_rank : LoanStatus → ℕ
loan_rank LoanStatus.pending = 0
loan_rank LoanStatus.disbursed = 1
loan_rank LoanStatus.repaying = 2
loan_rank LoanStatus.closed = 3
loan_rank LoanStatus.defaulted = 4

abbrev loan_value : LoanStatus → String
loan_value LoanStatus.pending = "pending"
loan_value LoanStatus.disbursed = "disbursed"
loan_value LoanStatus.repaying = "repaying"
loan_value LoanStatus.closed = "closed"
loan_value LoanStatus.defaulted = "defaulted"

pub loan_rank_injective : (a b : LoanStatus) → loan_rank a ≡ loan_rank b → a ≡ b
loan_rank_injective a b h = ground arith

instance abbrev pub loan_enum : StrEnum LoanStatus
loan_enum = record { rank = loan_rank; value = loan_value; rank_injective = loan_rank_injective }

abbrev installment_rank : InstallmentStatus → ℕ
installment_rank InstallmentStatus.due = 0
installment_rank InstallmentStatus.paid = 1
installment_rank InstallmentStatus.late = 2
installment_rank InstallmentStatus.defaulted = 3

abbrev installment_value : InstallmentStatus → String
installment_value InstallmentStatus.due = "due"
installment_value InstallmentStatus.paid = "paid"
installment_value InstallmentStatus.late = "late"
installment_value InstallmentStatus.defaulted = "defaulted"

pub installment_rank_injective :
    (a b : InstallmentStatus) → installment_rank a ≡ installment_rank b → a ≡ b
installment_rank_injective a b h = ground arith

instance abbrev pub installment_enum : StrEnum InstallmentStatus
installment_enum = record {
  rank = installment_rank;
  value = installment_value;
  rank_injective = installment_rank_injective;
}
