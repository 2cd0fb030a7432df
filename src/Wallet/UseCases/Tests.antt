-- ===== src/Wallet/UseCases/Tests.antt =====
-- The requests of the wallet at concrete inputs.
use diddi_pay_backend.Prelude.{
  ◌≡◌, refl, concat, starts_with, none, some, [], ◌∷◌, Bool-cases, inl, inr, ◌⊎◌,
}
use text.Mathlib.TextPositions.{eq_refl}
use diddi_pay_backend.Prelude.Int.{pos, ◌+ℤ◌, ◌-ℤ◌}
use diddi_pay_backend.Wallet.Errors.{ok}
use diddi_pay_backend.Wallet.Money.{xof}
use diddi_pay_backend.Wallet.Entities.{p2p_transfer, failed}
use diddi_pay_backend.Wallet.Store.{Transaction, request, get_by_user, get_transaction, mark}
use diddi_pay_backend.Wallet.Service.{debiter}
use diddi_pay_backend.Wallet.Pins.{get_pin, set_pin, clear_lock}
use diddi_pay_backend.Wallet.UseCases.{compte_de, draw}
use diddi_pay_backend.Wallet.UseCases.Pin.{
  verify_pin, change_pin, verifier_pin_utilisateur, is_valid, accept_pin, hash_pin,
  ensure_password_policy,
}
use diddi_pay_backend.Wallet.UseCases.Operations.{confirmer_operation, echouer_operation, fail}
use diddi_pay_backend.Wallet.UseCases.Operations.Settled.{confirmer_operation-once}
use diddi_pay_backend.Wallet.UseCases.Pin.Verify.{Verdict, verify_pin-Verdict}
use diddi_pay_backend.Wallet.UseCases.Pin.Set.{HashesPins, change_pin-verify_pin}
use diddi_pay_backend.Wallet.UseCases.Pin.Guesses.{guess_all, AllWrong, guess_all-pins}
use diddi_pay_backend.Wallet.UseCases.Samples.{
  environment, owned_account, pin_row, secured, untried, waiting_deposit, waiting,
}
use diddi_pay_backend.Wallet.Ledger.ZeroSum.{IsZeroSum}
use diddi_pay_backend.Wallet.Requests.{debits, verifies_pin}
use diddi_pay_backend.Wallet.Requests.Reached.{start, next}
use diddi_pay_backend.Wallet.Requests.ZeroSum.{Reached-IsZeroSum}
use diddi_pay_backend.Wallet.Requests.NeverLocked.{AllOpen, Reached-AllOpen}

secured-IsZeroSum : IsZeroSum secured
unfolding ◌+ℤ◌ ◌-ℤ◌
secured-IsZeroSum p = elim (Bool-cases (p 4 xof)) [
  | inl chosen ↦ rw chosen refl
  | inr other ↦ rw other refl
]

Reached-IsZeroSum_example :
    IsZeroSum (request (debiter 1 2 (pos 200) "rent" "rent-1" p2p_transfer none) secured).1
Reached-IsZeroSum_example = Reached-IsZeroSum (
    next (start {s = secured} secured-IsZeroSum)
      (debits 1 2 (pos 200) "rent" "rent-1" p2p_transfer none))

Reached-AllOpen_example :
    AllOpen
      (request
        (verifier_pin_utilisateur environment 7 "0000")
        (request (verifier_pin_utilisateur environment 7 "1111") untried).1).1
Reached-AllOpen_example = Reached-AllOpen (
    next (next (start {s = untried} ((refl, refl), tt)) (verifies_pin environment 7 "1111"))
      (verifies_pin environment 7 "0000"))

verify_pin-Verdict_example :
    Verdict environment 1 "0000" secured
      (get_pin 1 secured)
      (verify_pin environment 1 "0000" secured)
verify_pin-Verdict_example = verify_pin-Verdict environment 1 "0000" secured

environment-HashesPins : HashesPins environment
unfolding concat starts_with
environment-HashesPins = record {
  verifies = λ salt pin. eq_refl (concat "$argon2id$" pin);
  begins = λ salt pin. refl;
}

pin_changes :
    change_pin environment 7 "1234" "5678" "5678" secured
    ≡ (ok owned_account, (change_pin environment 7 "1234" "5678" "5678" secured).1)
unfolding change_pin compte_de get_by_user ensure_password_policy verify_pin get_pin is_valid concat
    starts_with accept_pin clear_lock hash_pin draw set_pin
pin_changes = refl

change_pin-verify_pin_example :
    (verify_pin environment 1 "5678" (change_pin environment 7 "1234" "5678" "5678" secured).1).0
    ≡ ok tt
change_pin-verify_pin_example =
    change_pin-verify_pin environment environment-HashesPins 7 "1234" "5678" "5678" secured
      (change_pin environment 7 "1234" "5678" "5678" secured).1 owned_account pin_changes

found_pin : get_pin 1 secured ≡ some pin_row
unfolding get_pin
found_pin = refl

two_wrong : AllWrong environment 1 pin_row ("0000" ∷ "1111" ∷ [])
unfolding is_valid concat starts_with
two_wrong = (refl, (refl, tt))

guess_all-pins_example :
    (guess_all environment 1 ("0000" ∷ "1111" ∷ []) secured).pins ≡ pin_row ∷ []
guess_all-pins_example =
    guess_all-pins environment 1 ("0000" ∷ "1111" ∷ []) secured pin_row found_pin two_wrong

abbrev failed_deposit : Transaction
failed_deposit = record waiting_deposit { status = failed }

deposit_fails :
    (confirmer_operation environment 4 "stub" waiting
      ≡ (ok failed_deposit, (echouer_operation 4 "stub" waiting).1))
    ⊎ (echouer_operation 4 "stub" waiting
        ≡ (ok failed_deposit, (echouer_operation 4 "stub" waiting).1))
unfolding echouer_operation get_transaction mark fail
deposit_fails = inr refl

confirmer_operation-once_example :
    (confirmer_operation environment 4 "stub" (echouer_operation 4 "stub" waiting).1
      ≡ (ok failed_deposit, (echouer_operation 4 "stub" waiting).1))
    × (echouer_operation 4 "stub" (echouer_operation 4 "stub" waiting).1
        ≡ (ok failed_deposit, (echouer_operation 4 "stub" waiting).1))
confirmer_operation-once_example =
    confirmer_operation-once 4 environment environment "stub" "stub" failed_deposit waiting
      (echouer_operation 4 "stub" waiting).1 deposit_fails
