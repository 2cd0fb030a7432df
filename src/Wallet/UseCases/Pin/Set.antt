-- ===== src/Wallet/UseCases/Pin/Set.antt =====
-- A PIN of payfund_app/modules/wallet/application/use_cases.py that was set is accepted.
use diddi_pay_backend.Prelude.{
  ℕ, ◌+◌, ◌≡◌, refl, ◌∙◌, true, false, String, none, some, arith, inl, inr, Option-cases, ==_iff,
  find_row, List, [], ◌∷◌, ◌++◌, subst,
}
use diddi_pay_backend.Prelude.Rows.{find_row-update_rows}
use diddi_pay_backend.Wallet.Errors.{ok}
use diddi_pay_backend.Wallet.Store.{Store, Account, TransactionPin, pure, ◌>>=◌, ◌>>◌}
use diddi_pay_backend.Wallet.Store.Ensures.{Ensures, Ends, Ensures-then}
use diddi_pay_backend.Wallet.Pins.{get_pin, is_of_pin, set_pin, fresh_pin, replace_pin}
use diddi_pay_backend.Wallet.Gateways.{Environment}
use diddi_pay_backend.Wallet.UseCases.{draw}
use diddi_pay_backend.Wallet.UseCases.Pin.{
  is_argon, is_locked, hash_pin, is_valid, verify_pin, change_pin,
}
use diddi_pay_backend.Wallet.UseCases.Pin.Verify.{Holds, Verdict, verify_pin-Verdict}

-- What the package `argon2` documents: a hash verifies its own password and begins with the name of its
-- variant.
pub record HashesPins (env : Environment) : Type 0 where
  pub verifies : (salt : ℕ) (pin : String) → env.argon2_verify (env.argon2_hash salt pin) pin ≡ true
  pub begins : (salt : ℕ) (pin : String) → is_argon (env.argon2_hash salt pin) ≡ true

-- The account's PIN has the hash and is not locked.
abbrev pub HasHash : ℕ → String → Store → Type 0
HasHash account_id hash s =
    (row : TransactionPin) × Holds account_id row s
    × (row.pin_hash ≡ hash)
    × (row.locked_until ≡ none)

find_last :
    (k : ℕ) (rows : List TransactionPin) (row : TransactionPin)
    → find_row (is_of_pin k) rows ≡ none
    → row.account_id ≡ k
    → find_row (is_of_pin k) (rows ++ row ∷ []) ≡ some row
find_last k [] row h e = ground arith
find_last k (r ∷ rows) row h e = ground (arith, find_last k rows row)

set_pin-HasHash :
    (account_id : ℕ) (hash salt : String) (s : Store)
    → HasHash account_id hash (set_pin account_id hash salt s).1
unfolding set_pin get_pin
set_pin-HasHash account_id hash salt s =
    elim (Option-cases (find_row (is_of_pin account_id) s.pins)) [
      | inl absent ↦
          rw absent
            (fresh_pin account_id hash salt, find_last account_id s.pins _ absent refl, refl, refl)
      | inr (row, found) ↦ rw found (
        replace_pin hash salt row,
        find_row-update_rows (λ r. r.account_id) (replace_pin hash salt) account_id account_id
              s.pins (λ r. refl)
            ∙ rw ((==_iff account_id account_id).1 refl, found) refl,
        refl,
        refl,
      )
    ]

module _ (env : Environment) (h : HashesPins env) where
  verifies_hash :
      (account_id salt : ℕ) (pin : String) (s : Store)
      → HasHash account_id (env.argon2_hash salt pin) s
      → (verify_pin env account_id pin s).0 ≡ ok tt
  unfolding is_valid
  verifies_hash account_id salt pin s (row, found, same, never) = conclude (
      subst (λ o. Verdict env account_id pin s o (verify_pin env account_id pin s)) found
        (verify_pin-Verdict env account_id pin s))
    where
      free : is_locked s.clock row.locked_until ≡ true → ⊥
      free = rw never (λ e. ground arith)

      valid : is_valid env row pin ≡ true
      valid = rw (same, h.begins salt pin) (h.verifies salt pin)

      wrong : is_valid env row pin ≡ false → ⊥
      wrong e = ground (arith, valid)

      conclude :
          Verdict env account_id pin s (some row) (verify_pin env account_id pin s)
          → (verify_pin env account_id pin s).0 ≡ ok tt
      conclude (inl p) = absurd (free p.0)
      conclude (inr (inl p)) = absurd (wrong p.1)
      conclude (inr (inr p)) = p.2

  -- What `change_pin` and `reset_pin_with_recovery` end with.
  new_pin_ends :
      (account : Account) (pin : String)
      → Ensures
          (λ (a : Account) s. (verify_pin env a.id pin s).0 ≡ ok tt)
          (hash_pin env pin >>= λ pin_hash. set_pin account.id pin_hash "argon2id" >> pure account)
  unfolding hash_pin draw set_pin
  new_pin_ends account pin = record {
    at = λ s. go s.next_id (record s { next_id = s.next_id + 1 });
  }
    where
      go :
          (salt : ℕ) (s : Store)
          → Ends
              (λ (a : Account) s. (verify_pin env a.id pin s).0 ≡ ok tt)
              ((set_pin account.id (env.argon2_hash salt pin) "argon2id" >> pure account) s)
      go salt s = verifies_hash account.id salt pin _ (set_pin-HasHash account.id _ "argon2id" s)

  -- If a hash of Argon2 verifies its own password and begins with the name of its variant: after a
  -- change of the PIN that returns, the new PIN is accepted.
  pub change_pin-verify_pin :
      (user_id : ℕ) (current pin confirm : String) (s s' : Store) (account : Account)
      → change_pin env user_id current pin confirm s ≡ (ok account, s')
      → (verify_pin env account.id pin s').0 ≡ ok tt
  unfolding change_pin
  change_pin-verify_pin user_id current pin confirm s s' account e =
      subst (Ends (λ (a : Account) s. (verify_pin env a.id pin s).0 ≡ ok tt)) e (ensured.at s)
    where
      ensured :
          Ensures
            (λ (a : Account) s. (verify_pin env a.id pin s).0 ≡ ok tt)
            (change_pin env user_id current pin confirm)
      ensured = search (Ensures-then, new_pin_ends) depth 12
