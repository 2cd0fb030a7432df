-- ===== src/Wallet/UseCases/Pin/Verify.antt =====
-- What the check of a PIN of payfund_app/modules/wallet/application/use_cases.py answers, and that a PIN that
-- was set is accepted.
use diddi_pay_backend.Prelude.{
  ℕ, ◌+◌, ◌-◌, ◌≤◌, ◌<◌, ◌≡◌, ◌⊎◌, refl, ◌∙◌, Bool, true, false, not, ◌||◌, String, Option, none,
  some, arith, Bool-cases, Option-cases, inl, inr, ==_iff, find_row, update_rows, find_row-passes,
}
use diddi_pay_backend.Prelude.Rows.{find_row-update_rows}
use diddi_pay_backend.Wallet.Errors.{Result, ok, err, pin_required, pin_locked, invalid_pin}
use diddi_pay_backend.Wallet.Store.{Store, TransactionPin}
use diddi_pay_backend.Wallet.Pins.{
  get_pin, is_of_pin, register_failure, clear_lock, store_hash, one_more_failure, unlocked, rehash,
}
use diddi_pay_backend.Wallet.Gateways.{Environment}
use diddi_pay_backend.Wallet.UseCases.{draw}
use diddi_pay_backend.Wallet.UseCases.Pin.{
  is_argon, is_locked, lock_end, hash_pin, is_valid, refuse_pin, accept_pin, verify_pin,
}

-- The row that holds the account's PIN is now `row`.
abbrev pub Holds : ℕ → TransactionPin → Store → Type 0
Holds account_id row s = get_pin account_id s ≡ some row

account_of :
    (account_id : ℕ) (row : TransactionPin) (s : Store)
    → Holds account_id row s
    → row.account_id ≡ account_id
unfolding get_pin
account_of account_id row s h =
    (==_iff row.account_id account_id).0 (find_row-passes (is_of_pin account_id) s.pins row h)

-- What a search finds after the row that it found has been changed.
found_changed :
    (account_id k : ℕ) (row : TransactionPin) (f : TransactionPin → TransactionPin) (s : Store)
    → ((r : TransactionPin) → (f r).account_id ≡ r.account_id)
    → k ≡ account_id
    → Holds account_id row s
    → find_row (is_of_pin account_id) (update_rows (is_of_pin k) f s.pins) ≡ some (f row)
unfolding get_pin
found_changed account_id k row f s keeps e h =
    find_row-update_rows (λ r. r.account_id) f account_id k s.pins keeps
    ∙ rw (e, (==_iff account_id account_id).1 refl, h) refl

refused_row :
    (env : Environment) (account_id : ℕ) (row : TransactionPin) (s : Store)
    → Holds account_id row s
    → Holds account_id (one_more_failure s.clock row) (refuse_pin env row s).1
unfolding refuse_pin register_failure get_pin
refused_row env account_id row s h =
    found_changed account_id row.account_id row (one_more_failure s.clock) s (λ r. ground arith)
      (account_of account_id row s h) h

abbrev pub Cleared : ℕ → Store → Type 0
Cleared account_id s =
    (row : TransactionPin) × Holds account_id row s
    × (row.failed_attempts ≡ 0)
    × (row.locked_until ≡ none)

cleared_row :
    (account_id : ℕ) (row row' : TransactionPin) (s : Store)
    → row.account_id ≡ account_id
    → Holds account_id row' s
    → Cleared account_id (clear_lock row s).1
unfolding clear_lock get_pin
cleared_row account_id row row' s e h = (
  unlocked row',
  found_changed account_id row.account_id row' unlocked s (λ r. refl) e h,
  refl,
  refl,
)

ok_clear : (row : TransactionPin) (s : Store) → (clear_lock row s).0 ≡ ok tt
unfolding clear_lock
ok_clear row s = refl

rehashed :
    (account_id : ℕ) (row : TransactionPin) (hash : String) (s : Store)
    → row.account_id ≡ account_id
    → Holds account_id row s
    → Holds account_id
        (rehash hash "argon2id" row)
        (store_hash row hash "argon2id" (record s { next_id = s.next_id + 1 })).1
unfolding store_hash get_pin
rehashed account_id row hash s e h =
    found_changed account_id row.account_id row (rehash hash "argon2id") s (λ r. refl) e h

accepted :
    (env : Environment) (account_id : ℕ) (row : TransactionPin) (pin : String) (s : Store)
    → Holds account_id row s
    → ((accept_pin env row pin s).0 ≡ ok tt) × Cleared account_id (accept_pin env row pin s).1
unfolding accept_pin hash_pin draw store_hash
accepted env account_id row pin s h =
    elim (Bool-cases (not (is_argon row.pin_hash) || env.check_needs_rehash row.pin_hash)) [
      | inl old ↦
          rw old (
            ok_clear row _,
            cleared_row account_id row _ _ here (rehashed account_id row _ s here h),
          )
      | inr fresh ↦ rw fresh (ok_clear row s, cleared_row account_id row row s here h)
    ]
  where
    here : row.account_id ≡ account_id
    here = account_of account_id row s h

-- A row after a wrong PIN: one more failure, from the fifth on a lock of 15 minutes, and the PIN that it had.
abbrev pub Refused : ℕ → TransactionPin → TransactionPin → Type 0
Refused now row row' =
    (row'.failed_attempts ≡ row.failed_attempts + 1)
    × (5 ≤ row.failed_attempts + 1 → row'.locked_until ≡ some (now + 900))
    × (row.failed_attempts + 1 < 5 → row'.locked_until ≡ row.locked_until)
    × (row'.account_id ≡ row.account_id)
    × (row'.pin_hash ≡ row.pin_hash)
    × (row'.pin_salt ≡ row.pin_salt)

one_more_failure-Refused :
    (now : ℕ) (row : TransactionPin) → Refused now row (one_more_failure now row)
one_more_failure-Refused now row = (
  ground arith,
  λ late. ground arith,
  λ early. ground arith,
  ground arith,
  ground arith,
  ground arith,
)

module _ (env : Environment) where
  -- What follows the search for a PIN, in each of its outcomes.
  abbrev pub Verdict :
      ℕ → String → Store → Option TransactionPin → Result (Unit {0}) × Store → Type 0
  Verdict account_id pin s none o = o ≡ (err pin_required, s)
  Verdict account_id pin s (some row) o =
      ((is_locked s.clock row.locked_until ≡ true)
        × (o ≡ (err (pin_locked (lock_end row.locked_until)), s)))
      ⊎ ((is_locked s.clock row.locked_until ≡ false)
          × (is_valid env row pin ≡ false)
          × (o.0 ≡ err (invalid_pin (row.failed_attempts + 1) (5 - (row.failed_attempts + 1))))
          × ((row' : TransactionPin) × Holds account_id row' o.1 × Refused s.clock row row'))
      ⊎ ((is_locked s.clock row.locked_until ≡ false)
          × (is_valid env row pin ≡ true)
          × (o.0 ≡ ok tt)
          × Cleared account_id o.1)

  refused_error :
      (row : TransactionPin) (s : Store)
      → (refuse_pin env row s).0
        ≡ err (invalid_pin (row.failed_attempts + 1) (5 - (row.failed_attempts + 1)))
  unfolding refuse_pin register_failure
  refused_error row s = refl

  -- What the check of a PIN does in each of its outcomes: an account without a PIN and one that is
  -- locked get their exceptions and nothing is written; a wrong PIN gets the exception with the
  -- count of failures and the attempts that remain, and its row, otherwise the same, counts one
  -- failure more and, from the fifth on, is locked for the next 15 minutes; the right PIN is
  -- accepted, and the row has neither failures nor a lock.
  pub verify_pin-Verdict :
      (account_id : ℕ) (pin : String) (s : Store)
      → Verdict account_id pin s (get_pin account_id s) (verify_pin env account_id pin s)
  unfolding verify_pin
  verify_pin-Verdict account_id pin s = elim (Option-cases (get_pin account_id s)) [
    | inl absent ↦ rw absent refl
    | inr (row, found) ↦ rw found (elim (Bool-cases (is_locked s.clock row.locked_until)) [
      | inl locked ↦ rw locked (inl (refl, refl))
      | inr open_row ↦ rw open_row (elim (Bool-cases (is_valid env row pin)) [
        | inr wrong ↦ rw wrong (
            inr (
              inl (
                refl,
                refl,
                refused_error row s,
                (
                  one_more_failure s.clock row,
                  refused_row env account_id row s found,
                  one_more_failure-Refused s.clock row,
                ),
              )))
        | inl right ↦ rw right (inr (inr (ends (accepted env account_id row pin s found))))
      ])
    ])
  ]
    where
      ends : {A B : Type 0} → A × B → Path Bool false false × Path Bool true true × A × B
      ends (a, b) = (refl, refl, a, b)
