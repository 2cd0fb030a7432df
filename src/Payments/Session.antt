-- ===== src/Payments/Session.antt =====
-- A SQLAlchemy session with its unit of work (payfund_app/modules/payments/infra/unit_of_work.py):
-- what the session has flushed, what is committed, and the sources of time and of fresh UUIDs. An
-- operation reads one value of the clock, and a UUID is the next value of a counter. What was flushed
-- before a raise stays flushed, so the session comes back beside the error; the caller then rolls back.
pub mod Keeps
use diddi_pay_backend.Prelude.{ℕ, ◌+◌, Bool, true, false, Option, none, some, List, [], ◌∷◌}
use diddi_pay_backend.Payments.Errors.{Error, Result, ok, err}
use diddi_pay_backend.Payments.Database.{Database}

pub record Session : Type 0 where
  pub db : Database
  pub committed : Database
  pub clock : ℕ
  pub next_id : ℕ

abbrev pub Action {ℓ} : Type ℓ → Type ℓ
Action A = Session → Result A × Session

module _ {A : Type 0} where
  abbrev pub pure : A → Action A
  pure a s = (ok a, s)

  abbrev pub raise : Error → Action A
  raise e s = (err e, s)

  -- The outcome of a pure function that may raise.
  abbrev pub lift : Result A → Action A
  lift r s = (r, s)

  abbrev pub gets : (Database → A) → Action A
  gets f s = (ok (f s.db), s)

  abbrev pub or_raise : Option A → Error → Action A
  or_raise none e s = (err e, s)
  or_raise (some a) e s = (ok a, s)

module _ {A B : Type 0} where
  abbrev pub continue : Result A → (A → Action B) → Action B
  continue (ok a) f s = f a s
  continue (err e) f s = (err e, s)

  infixl 5 ◌>>=◌ ◌>>◌
  abbrev pub ◌>>=◌ : Action A → (A → Action B) → Action B
  ◌>>=◌ m f s = let (r, s') = m s in continue r f s'

  abbrev pub ◌>>◌ : Action A → Action B → Action B
  m >> n = m >>= λ _. n

abbrev pub modify : (Database → Database) → Action (Unit {0})
modify f s = (ok tt, record s { db = f s.db })

-- `utc_now()`
abbrev pub utc_now : Action ℕ
utc_now s = (ok s.clock, s)

-- `uuid.uuid4()`
abbrev pub fresh_id : Action ℕ
fresh_id s = (ok s.next_id, record s { next_id = s.next_id + 1 })

-- `uow.commit()`
abbrev pub commit : Action (Unit {0})
commit s = (ok tt, record s { committed = s.db })

-- `uow.rollback()`, which also ends a request that raised.
abbrev pub rollback : Session → Session
rollback s = record s { db = s.committed }

-- A session at the start of a request.
abbrev pub begin : Database → ℕ → ℕ → Session
begin d now fresh = record { db = d; committed = d; clock = now; next_id = fresh }

-- `if test: raise e`
abbrev pub raise_if : Bool → Error → Action (Unit {0})
raise_if true e s = (err e, s)
raise_if false e s = (ok tt, s)

-- A run over rows, one after the other, with an accumulator; an exception ends it.
unfoldable pub for_each : {A B : Type 0} → List A → B → (A → B → Action B) → Action B
for_each [] b f = pure b
for_each (a ∷ rest) b f = f a b >>= λ c. for_each rest c f

-- `if test: action`, and `if test: m else: n`
abbrev pub when : Bool → Action (Unit {0}) → Action (Unit {0})
when true action s = action s
when false action s = (ok tt, s)

abbrev pub branch : {A : Type 0} → Bool → Action A → Action A → Action A
branch true m n s = m s
branch false m n s = n s
