-- ===== src/Wallet/Entities/Codes.antt =====
-- The ranks and the texts of the enumerations of payfund_app/modules/wallet/domain/entities.py.
use diddi_pay_backend.Prelude.{ℕ, ◌≡◌, String, StrEnum, arith}
use diddi_pay_backend.Wallet.Entities.{AccountType, Direction, TransactionType, TransactionStatus}

abbrev account_type_rank : AccountType → ℕ
account_type_rank AccountType.user = 0
account_type_rank AccountType.merchant = 1
account_type_rank AccountType.technical = 2

abbrev account_type_value : AccountType → String
account_type_value AccountType.user = "user"
account_type_value AccountType.merchant = "merchant"
account_type_value AccountType.technical = "technical"

pub account_type_rank_injective :
    (a b : AccountType) → account_type_rank a ≡ account_type_rank b → a ≡ b
account_type_rank_injective a b h = ground arith

instance abbrev pub account_type_enum : StrEnum AccountType
account_type_enum = record {
  rank = account_type_rank;
  value = account_type_value;
  rank_injective = account_type_rank_injective;
}

abbrev direction_rank : Direction → ℕ
direction_rank Direction.debit = 0
direction_rank Direction.credit = 1

abbrev direction_value : Direction → String
direction_value Direction.debit = "debit"
direction_value Direction.credit = "credit"

pub direction_rank_injective : (a b : Direction) → direction_rank a ≡ direction_rank b → a ≡ b
direction_rank_injective a b h = ground arith

instance abbrev pub direction_enum : StrEnum Direction
direction_enum = record {
  rank = direction_rank;
  value = direction_value;
  rank_injective = direction_rank_injective;
}

abbrev transaction_type_rank : TransactionType → ℕ
transaction_type_rank TransactionType.deposit = 0
transaction_type_rank TransactionType.withdrawal = 1
transaction_type_rank TransactionType.p2p_transfer = 2
transaction_type_rank TransactionType.merchant_payment = 3
transaction_type_rank TransactionType.fund_disbursement = 4
transaction_type_rank TransactionType.fund_repayment = 5
transaction_type_rank TransactionType.currency_conversion = 6

abbrev transaction_type_value : TransactionType → String
transaction_type_value TransactionType.deposit = "deposit"
transaction_type_value TransactionType.withdrawal = "withdrawal"
transaction_type_value TransactionType.p2p_transfer = "p2p_transfer"
transaction_type_value TransactionType.merchant_payment = "merchant_payment"
transaction_type_value TransactionType.fund_disbursement = "fund_disbursement"
transaction_type_value TransactionType.fund_repayment = "fund_repayment"
transaction_type_value TransactionType.currency_conversion = "currency_conversion"

pub transaction_type_rank_injective :
    (a b : TransactionType) → transaction_type_rank a ≡ transaction_type_rank b → a ≡ b
transaction_type_rank_injective a b h = ground arith

instance abbrev pub transaction_type_enum : StrEnum TransactionType
transaction_type_enum = record {
  rank = transaction_type_rank;
  value = transaction_type_value;
  rank_injective = transaction_type_rank_injective;
}

abbrev transaction_status_rank : TransactionStatus → ℕ
transaction_status_rank TransactionStatus.pending = 0
transaction_status_rank TransactionStatus.completed = 1
transaction_status_rank TransactionStatus.failed = 2
transaction_status_rank TransactionStatus.reversed = 3

abbrev transaction_status_value : TransactionStatus → String
transaction_status_value TransactionStatus.pending = "pending"
transaction_status_value TransactionStatus.completed = "completed"
transaction_status_value TransactionStatus.failed = "failed"
transaction_status_value TransactionStatus.reversed = "reversed"

pub transaction_status_rank_injective :
    (a b : TransactionStatus) → transaction_status_rank a ≡ transaction_status_rank b → a ≡ b
transaction_status_rank_injective a b h = ground arith

instance abbrev pub transaction_status_enum : StrEnum TransactionStatus
transaction_status_enum = record {
  rank = transaction_status_rank;
  value = transaction_status_value;
  rank_injective = transaction_status_rank_injective;
}
