-- ===== src/Payments/Money/Validation.antt =====
-- What `Money(amount, currency)` accepts.
use diddi_pay_backend.Prelude.{◌<◌, ◌≡◌, String, true, arith, upper, strip, count_chars, is_alpha}
use diddi_pay_backend.Prelude.Int.{ℤ, pos}
use diddi_pay_backend.Payments.Errors.{ok}
use diddi_pay_backend.Payments.Money.{Money, money}

-- A valid amount of money has the amount asked for, which is positive, and the normalised
-- currency, which is three letters.
pub money_lem :
    (amount : ℤ) (currency : String) (m : Money)
    → money amount currency ≡ ok m
    → (amount ≡ pos m.amount)
      × (0 < m.amount)
      × (m.currency ≡ upper (strip currency))
      × (count_chars m.currency ≡ 3)
      × (is_alpha m.currency ≡ true)
unfolding money
money_lem amount currency m h = ground arith
