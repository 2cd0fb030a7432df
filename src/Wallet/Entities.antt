-- ===== src/Wallet/Entities.antt =====
-- payfund_app/modules/wallet/domain/entities.py: the entries of the ledger and their invariant.
pub mod Balanced
pub mod Codes
use diddi_pay_backend.Prelude.{
  ℕ, zero, Bool, true, false, not, ◌&&◌, ◌||◌, String, Option, List, [], ◌∷◌, length, ltb, ◌==◌,
  ◌is◌, if◌then◌else◌,
}
use diddi_pay_backend.Prelude.Int.{ℤ, pos, negsuc, ◌+ℤ◌, ◌-ℤ◌}
use diddi_pay_backend.Wallet.Errors.{Result, ok, err, unbalanced_ledger}
use diddi_pay_backend.Wallet.Money.{Money, Currency, currency_enum}

pub data AccountType : Type 0 where
  user merchant technical : AccountType

pub data AccountStatus : Type 0 where
  active frozen closed : AccountStatus

pub data Direction : Type 0 where
  debit credit : Direction

pub data TransactionType : Type 0 where
  deposit withdrawal p2p_transfer merchant_payment : TransactionType
  fund_disbursement fund_repayment currency_conversion : TransactionType

pub data TransactionStatus : Type 0 where
  pending completed failed reversed : TransactionStatus

pub record PostingLine : Type 0 where
  pub account_id : ℕ
  pub direction : Direction
  pub money : Money
  pub reference : Option String

-- `amount if direction is CREDIT else -amount`
abbrev pub signed : Direction → ℕ → ℤ
signed credit amount = pos amount
signed debit amount = pos 0 -ℤ pos amount

-- Whether all lines have one currency, `len({...}) <= 1`.
abbrev pub has_currency : Currency → List PostingLine → Bool
has_currency c [] = true
has_currency c (line ∷ lines) = line.money.currency is c && has_currency c lines

abbrev pub has_one_currency : List PostingLine → Bool
has_one_currency [] = true
has_one_currency (line ∷ lines) = has_currency line.money.currency lines

-- The loop of `assert_balanced`.
unfoldable pub sum_lines : List PostingLine → ℤ → Result ℤ
sum_lines [] total = ok total
sum_lines (line ∷ lines) total =
    if ltb 0 line.money.amount
    then sum_lines lines (total +ℤ signed line.direction line.money.amount)
    else err unbalanced_ledger

abbrev is_zero : Result ℤ → Result (Unit {0})
is_zero (ok (pos zero)) = ok tt
is_zero (ok _) = err unbalanced_ledger
is_zero (err e) = err e

-- `assert_balanced`
unfoldable pub assert_balanced : List PostingLine → Result (Unit {0})
unfolding sum_lines
assert_balanced lines =
    if ltb (length lines) 2 || not (has_one_currency lines)
    then err unbalanced_ledger
    else is_zero (sum_lines lines (pos 0))
