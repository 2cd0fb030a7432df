-- ===== src/Payments/Money.antt =====
-- `Money` and `NextAction` of payfund_app/modules/payments/domain/entities.py. An amount is validated
-- to be positive, so a valid one is a natural number; an unchecked one is an integer.
pub mod Validation
use diddi_pay_backend.Prelude.{
  ℕ, String, Bool, true, not, ◌||◌, Option, none, some, if◌then◌else◌, ◌==◌, upper, strip,
  count_chars, is_alpha, is_empty,
}
use diddi_pay_backend.Prelude.Int.{ℤ, pos, negsuc}
use diddi_pay_backend.Payments.Errors.{
  Result, ok, err, ◌>>=◌, ◌>>◌, raise_if, invalid_amount, invalid_currency, value_error,
}

pub record Money : Type 0 where
  pub amount : ℕ
  pub currency : String

positive : ℤ → Result ℕ
positive (pos n) = if n == 0 then err invalid_amount else ok n
positive (negsuc n) = err invalid_amount

-- `Money(amount, currency)` with its `__post_init__`
unfoldable pub money : ℤ → String → Result Money
unfolding positive
money amount currency = do
  n ← positive amount
  let normalized = upper (strip currency)
  raise_if (not (count_chars normalized == 3) || not (is_alpha normalized)) invalid_currency
  ok (record { amount = n; currency = normalized })

pub data NextActionType : Type 0 where
  redirect mobile_money_prompt display_instructions await_confirmation no_action : NextActionType

pub record NextAction : Type 0 where
  pub action_type : NextActionType
  pub url : Option String
  pub instructions : Option String
  pub expires_at : Option ℕ

-- `not text`, for an optional text
abbrev pub is_missing : Option String → Bool
is_missing none = true
is_missing (some s) = is_empty s

-- `NextAction(...)` with its `__post_init__`
unfoldable pub next_action :
    NextActionType → Option String → Option String → Option ℕ → Result NextAction
next_action NextActionType.redirect url instructions expires_at =
    if is_missing url
    then err value_error
    else ok (record {
      action_type = NextActionType.redirect;
      url = url;
      instructions = instructions;
      expires_at = expires_at;
    })
next_action t url instructions expires_at =
    ok (record { action_type = t; url = url; instructions = instructions; expires_at = expires_at })
