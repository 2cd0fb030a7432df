-- ===== src/Wallet/Store/Actions.antt =====
-- Operations on the tables of payfund_app/modules/wallet that may raise, and a request of
-- payfund_app/core/database.py around them.
use diddi_pay_backend.Prelude.{Bool, true, false}
use diddi_pay_backend.Wallet.Errors.{Error, Result, ok, err}
use diddi_pay_backend.Wallet.Store.Tables.{Store}

-- What was flushed before a raise stays, so the store comes back beside the error.
abbrev pub Action : Type 0 → Type 0
Action A = Store → Result A × Store

module _ {A : Type 0} where
  abbrev pub pure : A → Action A
  pure a s = (ok a, s)

  abbrev pub raise : Error → Action A
  raise e s = (err e, s)

  abbrev pub lift : Result A → Action A
  lift r s = (r, s)

  abbrev pub gets : (Store → A) → Action A
  gets f s = (ok (f s), s)

  -- `if test: m else: n`
  abbrev pub branch : Bool → Action A → Action A → Action A
  branch true m n s = m s
  branch false m n s = n s

module _ {A B : Type 0} where
  abbrev pub continue : Result A → (A → Action B) → Action B
  continue (ok a) f s = f a s
  continue (err e) f s = (err e, s)

  infixl 5 ◌>>=◌ ◌>>◌
  abbrev pub ◌>>=◌ : Action A → (A → Action B) → Action B
  ◌>>=◌ m f s = let (r, s') = m s in continue r f s'

  abbrev pub ◌>>◌ : Action A → Action B → Action B
  m >> n = m >>= λ _. n

module _ {A : Type 0} where
  abbrev pub kept : Store → Result A → Action A
  kept saved (ok a) s = (ok a, s)
  kept saved (err e) s = (err e, record saved { published = s.published; next_id = s.next_id })

  -- `get_session`: the tables go back to what they were when a request raises. What went to the bus and
  -- the identifiers that were drawn do not come back.
  unfoldable pub request : Action A → Action A
  request action s = let (r, s') = action s in kept s r s'

abbrev pub raise_if : Bool → Error → Action (Unit {0})
raise_if true e s = (err e, s)
raise_if false e s = (ok tt, s)

abbrev pub modify : (Store → Store) → Action (Unit {0})
modify f s = (ok tt, f s)
