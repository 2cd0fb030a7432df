-- ===== src/Wallet/Money.antt =====
-- payfund_app/modules/wallet/domain/money.py: amounts in minor units, currencies and conversions.
use diddi_pay_backend.Prelude.{
  ℕ, ◌+◌, ◌-◌, ◌*◌, ◌/◌, ◌%◌, ◌^◌, ◌≡◌, Bool, not, String, StrEnum, ◌is◌, arith, leb, ◌==◌,
  if◌then◌else◌, str_eq,
}
use diddi_pay_backend.Prelude.Decimals.{Decimal, round_half_up}
use diddi_pay_backend.Prelude.Int.{ℤ, pos, negsuc, ltb_ℤ}
use diddi_pay_backend.Wallet.Errors.{Result, ok, err, invalid_amount, unknown_currency}

-- The keys of `CURRENCIES`.
pub data Currency : Type 0 where
  xof xaf eur usd gbp : Currency

abbrev currency_rank : Currency → ℕ
currency_rank xof = 0
currency_rank xaf = 1
currency_rank eur = 2
currency_rank usd = 3
currency_rank gbp = 4

abbrev currency_code : Currency → String
currency_code xof = "XOF"
currency_code xaf = "XAF"
currency_code eur = "EUR"
currency_code usd = "USD"
currency_code gbp = "GBP"

pub currency_rank_injective : (a b : Currency) → currency_rank a ≡ currency_rank b → a ≡ b
currency_rank_injective a b h = ground arith

instance abbrev pub currency_enum : StrEnum Currency
currency_enum = record {
  rank = currency_rank;
  value = currency_code;
  rank_injective = currency_rank_injective;
}

-- The number of decimals, `CURRENCIES[code].exponent`.
abbrev pub exponent : Currency → ℕ
exponent xof = 0
exponent xaf = 0
exponent eur = 2
exponent usd = 2
exponent gbp = 2

-- `devise`
unfoldable pub currency_of : String → Result Currency
currency_of code =
    if str_eq code "XOF"
    then ok xof
    else if str_eq code "XAF"
    then ok xaf
    else if str_eq code "EUR"
    then ok eur
    else if str_eq code "USD"
    then ok usd
    else if str_eq code "GBP"
    then ok gbp
    else err unknown_currency

pub record Money : Type 0 where
  pub amount : ℕ
  pub currency : Currency

abbrev with_currency : ℕ → Result Currency → Result Money
with_currency amount (ok currency) = ok (record { amount = amount; currency = currency })
with_currency amount (err e) = err e

-- `Money(amount, currency)` with its `__post_init__`
unfoldable pub money : ℤ → String → Result Money
money (pos amount) code = with_currency amount (currency_of code)
money (negsuc _) code = err invalid_amount

-- `__add__` and `__sub__`
unfoldable pub add_money : Money → Money → Result Money
add_money a b =
    if a.currency is b.currency
    then ok (record { amount = a.amount + b.amount; currency = a.currency })
    else err invalid_amount

unfoldable pub subtract_money : Money → Money → Result Money
subtract_money a b =
    if a.currency is b.currency
    then (if leb b.amount a.amount
        then ok (record { amount = a.amount - b.amount; currency = a.currency })
        else err invalid_amount)
    else err invalid_amount

abbrev scaled : Currency → ℤ → ℕ → Result Money
scaled currency (negsuc _) places = err invalid_amount
scaled currency (pos units) places =
    if units * 10 ^ exponent currency % 10 ^ places == 0
    then ok (record { amount = units * 10 ^ exponent currency / 10 ^ places; currency = currency })
    else err invalid_amount

-- `from_major`, on a value that is already a `Decimal`
unfoldable pub from_major : Decimal → Currency → Result Money
from_major value currency = scaled currency value.units value.places

-- `major_amount`
unfoldable pub major_amount : Money → Decimal
major_amount m = record { units = pos m.amount; places = exponent m.currency }

abbrev converted : Money → Currency → ℤ → ℕ → Result Money
converted m target (negsuc _) places = err invalid_amount
converted m target (pos units) places =
    if units == 0
    then err invalid_amount
    else ok (record {
      amount =
          round_half_up (m.amount * units * 10 ^ exponent target)
            (10 ^ exponent m.currency * 10 ^ places);
      currency = target;
    })

-- `convertir`
unfoldable pub convert : Currency → Decimal → Money → Result Money
convert target rate m = converted m target rate.units rate.places

pub record Balance : Type 0 where
  pub amount : ℤ
  pub currency : Currency

-- `couvre`
unfoldable pub covers : Balance → Money → Result Bool
covers balance m =
    if balance.currency is m.currency
    then ok (not (ltb_ℤ balance.amount (pos m.amount)))
    else err invalid_amount
