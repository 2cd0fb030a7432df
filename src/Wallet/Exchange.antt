-- ===== src/Wallet/Exchange.antt =====
-- payfund_app/modules/wallet/application/exchange.py and payfund_app/modules/wallet/infra/exchange_rates.py:
-- conversions between currencies.
pub mod Digits
use diddi_pay_backend.Prelude.{
  ℕ, zero, suc, ◌+◌, ◌*◌, ◌/◌, ◌%◌, ◌^◌, ◌++◌, true, not, ◌&&◌, ◌||◌, String, concat, leb, ltb,
  ◌==◌, ◌is◌, to_text, Option, none, some, List, [], ◌∷◌, if◌then◌else◌,
}
use diddi_pay_backend.Prelude.Int.{ℤ, pos, negsuc, ltb_ℤ}
use diddi_pay_backend.Prelude.Decimals.{Decimal}
use diddi_pay_backend.Wallet.Errors.{
  Result, ok, err, account_not_found, same_currency_conversion, invalid_amount_error,
  exchange_rate_unavailable, division_by_zero, integrity_error,
}
use diddi_pay_backend.Wallet.Money.{Money, Currency, currency_enum, convert}
use diddi_pay_backend.Wallet.Entities.{technical, currency_conversion, completed}
use diddi_pay_backend.Wallet.Store.{
  Store, Account, ExchangeRate, CurrencyConversion, caller_key, Action, pure, lift, gets, raise_if,
  modify, ◌>>=◌, ◌>>◌, get_account, get_by_reference, create_account,
}
use diddi_pay_backend.Wallet.Ledger.{transfer}
use diddi_pay_backend.Wallet.UseCases.{or_raise}
use diddi_pay_backend.Wallet.UseCases.Payments.{is_positive}

-- A step of the division of `decimal`: the least number of decimals, from `e` on, with which the quotient has
-- 28 significant digits.
unfoldable pub quotient_places : ℕ → ℕ → ℕ → ℕ → ℕ
quotient_places zero units places e = e
quotient_places (suc fuel) units places e =
    let further = quotient_places fuel units places (e + 1) in
    if leb (10 ^ 27 * units) (10 ^ (places + e)) then e else further

-- Rounding of `a / b` to the nearest number, half to even.
unfoldable pub round_half_even : ℕ → ℕ → ℕ
round_half_even a b =
    let q = a / b in
    let r = a % b in if ltb b (2 * r) || ((2 * r == b) && (q % 2 == 1)) then q + 1 else q

abbrev reciprocal_of : ℤ → ℕ → Result Decimal
reciprocal_of (negsuc _) places = err division_by_zero
reciprocal_of (pos zero) places = err division_by_zero
reciprocal_of (pos (suc n)) places =
    let e = quotient_places 64 (suc n) places 0 in
    ok (record { units = pos (round_half_even (10 ^ (places + e)) (suc n)); places = e })

-- `Decimal(1) / rate` in the default context: 28 digits, half to even. The table has no rate below zero.
unfoldable pub reciprocal : Decimal → Result Decimal
reciprocal rate = reciprocal_of rate.units rate.places

abbrev later : ExchangeRate → Option ExchangeRate → Option ExchangeRate
later row none = some row
later row (some best) = if ltb row.valid_from best.valid_from then some best else some row

-- `_dernier`: the rate with the latest `valid_from`, and of those the one inserted first.
abbrev latest : Currency → Currency → List ExchangeRate → Option ExchangeRate
latest base quote [] = none
latest base quote (row ∷ rows) =
    let rest = latest base quote rows in
    if row.base_currency is base && row.quote_currency is quote then later row rest else rest

unfoldable pub latest_rate : Currency → Currency → Store → Option ExchangeRate
latest_rate base quote s = latest base quote s.exchange_rates

abbrev inverse_of : Option ExchangeRate → Result Decimal
inverse_of none = err exchange_rate_unavailable
inverse_of (some row) = reciprocal row.rate

abbrev rate_or : Option ExchangeRate → Result Decimal → Result Decimal
rate_or none inverse = inverse
rate_or (some row) inverse = ok row.rate

-- `taux`
unfoldable pub rate_between : Currency → Currency → Store → Result Decimal
rate_between base quote s =
    if base is quote
    then ok (record { units = pos 1; places = 0 })
    else rate_or (latest_rate base quote s) (inverse_of (latest_rate quote base s))

unfoldable pub add_rate : ExchangeRate → Action (Unit {0})
add_rate row = modify (λ s. record s { exchange_rates = s.exchange_rates ++ row ∷ [] })

-- `poser`; the table wants a rate above zero between two different currencies.
unfoldable pub quote_rate : Currency → Currency → Decimal → Option String → Action (Unit {0})
quote_rate base quote rate source = do
  raise_if (base is quote || not (ltb_ℤ (pos 0) rate.units)) integrity_error
  now ← gets (λ s. s.clock)
  add_rate (record {
    base_currency = base;
    quote_currency = quote;
    rate = rate;
    source = source;
    valid_from = now;
  })

abbrev pub position_or : Option Account → Action Account → Action Account
position_or none action = action
position_or (some account) action = pure account

-- `FX_POSITION_REFERENCE`
abbrev pub position_reference : Currency → String
position_reference currency = concat "wallet:fx:position:" (to_text currency)

-- `compte_de_position`
unfoldable pub compte_de_position : Currency → Action ℕ
compte_de_position currency = do
  existing ← gets (get_by_reference (position_reference currency))
  account ←
      position_or existing
        (create_account none technical currency (some (position_reference currency)) true)
  pure account.id

unfoldable pub add_conversion : CurrencyConversion → Action (Unit {0})
add_conversion row = modify (λ s. record s { conversions = s.conversions ++ row ∷ [] })

-- The reference of one of the two transactions.
abbrev fx_reference : String → Account → Account → String
fx_reference way source target =
    concat way (concat (to_text source.currency) (concat "->" (to_text target.currency)))

-- `convertir` after its checks: two transactions, each balanced in its own currency.
unfoldable pub move_both :
    Account → Account → Money → Money → Decimal → String → Action CurrencyConversion
move_both source target amount target_amount rate idempotency_key = do
  source_position ← compte_de_position source.currency
  target_position ← compte_de_position target.currency
  outgoing ←
      transfer source.id source_position amount currency_conversion
        (fx_reference "wallet:fx:out:" source target) (caller_key (concat idempotency_key ":out"))
        (some "wallet") completed
  incoming ←
      transfer target_position target.id target_amount currency_conversion
        (fx_reference "wallet:fx:in:" source target) (caller_key (concat idempotency_key ":in"))
        (some "wallet") completed
  let row : CurrencyConversion = record {
    account_id = source.id;
    source_transaction_id = outgoing.0.id;
    target_transaction_id = incoming.0.id;
    source_money = amount;
    target_money = target_amount;
    rate = rate;
  }
  add_conversion row
  pure row

-- `convertir`
unfoldable pub convertir : ℕ → ℕ → Money → String → Action CurrencyConversion
convertir source_account_id target_account_id amount idempotency_key = do
  found_source ← gets (get_account source_account_id)
  found_target ← gets (get_account target_account_id)
  source ← lift (or_raise found_source account_not_found)
  target ← lift (or_raise found_target account_not_found)
  raise_if (source.currency is target.currency) same_currency_conversion
  raise_if (not (amount.currency is source.currency)) invalid_amount_error
  raise_if (not (is_positive amount)) invalid_amount_error
  known_rate ← gets (rate_between source.currency target.currency)
  rate ← lift known_rate
  target_amount ← lift (convert target.currency rate amount)
  raise_if (not (is_positive target_amount)) invalid_amount_error
  move_both source target amount target_amount rate idempotency_key
