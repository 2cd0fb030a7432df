-- ===== src/Payments/Reconciliation/Matching.antt =====
-- When `run` of payfund_app/modules/payments/application/reconciliation.py takes a result for another payment's.
use diddi_pay_backend.Prelude.{
  ℕ, ◌≡◌, ◌↔◌, sym, ap, Bool, true, false, not, ◌&&◌, ◌||◌, String, eq_iff, option_text_eq, Option,
  none, some, arith,
}
use diddi_pay_backend.Prelude.Int.{ℤ, pos, negsuc}
use diddi_pay_backend.Payments.Status.{attempt_enum}
use diddi_pay_backend.Payments.Entities.{PaymentAttempt}
use diddi_pay_backend.Payments.Ports.{ProviderResult}
use diddi_pay_backend.Payments.Webhooks.{matches_money, amount_is}
use diddi_pay_backend.Payments.Reconciliation.{disagrees}

-- The processor's result is about the attempt: its reference, its amount and its currency.
abbrev pub IsAbout : ProviderResult → PaymentAttempt → Type 0
IsAbout result attempt =
    (attempt.provider_reference ≡ some result.provider_reference)
    × (result.amount ≡ some (pos attempt.money.amount))
    × (result.currency ≡ some attempt.money.currency)

same_reference :
    (r : String) (o : Option String) → (option_text_eq (some r) o ≡ true) ↔ (o ≡ some r)
same_reference r none = ((λ h. ground arith), λ h. ground arith)
same_reference r (some s) =
    ((λ h. ap some (sym ((eq_iff r s).0 h))), λ h. (eq_iff r s).1 (ground arith))

same_currency : (o : Option String) (c : String) → (option_text_eq o (some c) ≡ true) ↔ (o ≡ some c)
same_currency none c = ((λ h. ground arith), λ h. ground arith)
same_currency (some s) c = ((λ h. ap some ((eq_iff s c).0 h)), λ h. (eq_iff s c).1 (ground arith))

same_amount : (o : Option ℤ) (n : ℕ) → (amount_is o n ≡ true) ↔ (o ≡ some (pos n))
same_amount none n = ((λ h. ground arith), λ h. ground arith)
same_amount (some (pos a)) n = ((λ h. ground arith), λ h. ground arith)
same_amount (some (negsuc a)) n = ((λ h. ground arith), λ h. ground arith)

all_hold : (a b c : Bool) → (not a || not (b && c)) ≡ false → (a ≡ true) × (b ≡ true) × (c ≡ true)
all_hold a b c h = (ground arith, ground arith, ground arith)

none_fails : (a b c : Bool) → a ≡ true → b ≡ true → c ≡ true → (not a || not (b && c)) ≡ true → ⊥
none_fails a b c p q r h = ground arith

unfoldable pub differs : ProviderResult → PaymentAttempt → Bool
differs result attempt =
    not (option_text_eq (some result.provider_reference) attempt.provider_reference)
    || not (matches_money result.amount result.currency attempt.money)

pub agrees_lem :
    (result : ProviderResult) (attempt : PaymentAttempt)
    → differs result attempt ≡ false
    → IsAbout result attempt
unfolding differs
agrees_lem result attempt h =
    let (a, b, c) = all_hold _ _ _ h in
    (
      (same_reference result.provider_reference attempt.provider_reference).0 a,
      (same_amount result.amount attempt.money.amount).0 b,
      (same_currency result.currency attempt.money.currency).0 c,
    )

pub differs_lem :
    (result : ProviderResult) (attempt : PaymentAttempt)
    → differs result attempt ≡ true
    → IsAbout result attempt
    → ⊥
unfolding differs
differs_lem result attempt h (a, b, c) =
    none_fails _ _ _ ((same_reference result.provider_reference attempt.provider_reference).1 a)
      ((same_amount result.amount attempt.money.amount).1 b)
      ((same_currency result.currency attempt.money.currency).1 c) h

pub differing :
    (result : ProviderResult) (attempt : PaymentAttempt)
    → disagrees result attempt ≡ true
    → differs result attempt ≡ true
unfolding differs
differing result attempt h = ground arith
