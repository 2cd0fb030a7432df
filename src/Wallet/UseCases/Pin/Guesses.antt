-- ===== src/Wallet/UseCases/Pin/Guesses.antt =====
-- Wrong PINs in requests of their own: the check of payfund_app/modules/wallet/application/use_cases.py inside
-- the session of payfund_app/core/database.py.
use diddi_pay_backend.Prelude.{
  ℕ, ◌≡◌, refl, ap, ◌∙◌, true, false, String, some, List, [], ◌∷◌, arith, inl, inr, subst, find_row,
}
use diddi_pay_backend.Wallet.Errors.{Error, Result, ok, err}
use diddi_pay_backend.Wallet.Store.{Store, TransactionPin, request, kept}
use diddi_pay_backend.Wallet.Pins.{get_pin, is_of_pin}
use diddi_pay_backend.Wallet.Gateways.{Environment}
use diddi_pay_backend.Wallet.UseCases.Pin.{is_valid, verify_pin}
use diddi_pay_backend.Wallet.UseCases.Pin.Verify.{Verdict, verify_pin-Verdict}

module _ (env : Environment) (account_id : ℕ) where
  -- One request after the other, each with a PIN.
  abbrev pub guess_all : List String → Store → Store
  guess_all [] s = s
  guess_all (pin ∷ pins) s = guess_all pins (request (verify_pin env account_id pin) s).1

  abbrev pub AllWrong : TransactionPin → List String → Type 0
  AllWrong row [] = Unit
  AllWrong row (pin ∷ pins) = (is_valid env row pin ≡ false) × AllWrong row pins

  refused :
      (row : TransactionPin) (pin : String) (s : Store)
      → get_pin account_id s ≡ some row
      → is_valid env row pin ≡ false
      → (e : Error) × ((verify_pin env account_id pin s).0 ≡ err e)
  refused row pin s found wrong = go (
      subst (λ o. Verdict env account_id pin s o (verify_pin env account_id pin s)) found
        (verify_pin-Verdict env account_id pin s))
    where
      no_way : is_valid env row pin ≡ true → ⊥
      no_way right = ground (arith, wrong)

      go :
          Verdict env account_id pin s (some row) (verify_pin env account_id pin s)
          → (e : Error) × ((verify_pin env account_id pin s).0 ≡ err e)
      go (inl p) = (_, ap (λ o. o.0) p.1)
      go (inr (inl p)) = (_, p.2)
      go (inr (inr p)) = absurd (no_way p.1)

  restored :
      {A : Type 0} (s : Store) (o : Result A × Store) (e : Error)
      → o.0 ≡ err e
      → (kept s o.0 o.1).1.pins ≡ s.pins
  restored s (ok a, s') e h = ground arith
  restored s (err x, s') e h = refl

  -- However many wrong PINs are tried, each in a request of its own: the rows of the PINs stay
  -- what they were, so none of the failures is counted.
  pub guess_all-pins :
      (pins : List String) (s : Store) (row : TransactionPin)
      → get_pin account_id s ≡ some row
      → AllWrong row pins
      → (guess_all pins s).pins ≡ s.pins
  unfolding request get_pin
  guess_all-pins [] s row found wrong = refl
  guess_all-pins (pin ∷ pins) s row found (wrong, more) =
      guess_all-pins pins _ row (ap (find_row (is_of_pin account_id)) same ∙ found) more ∙ same
    where
      same : (request (verify_pin env account_id pin) s).1.pins ≡ s.pins
      same =
          let (e, h) = refused row pin s found wrong in
          restored s (verify_pin env account_id pin s) e h
