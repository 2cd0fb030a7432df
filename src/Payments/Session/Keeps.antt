-- ===== src/Payments/Session/Keeps.antt =====
-- Actions that commit nothing: one rule for each way to build one.
use diddi_pay_backend.Prelude.{◌≡◌, refl, ◌∙◌, Bool, true, false, Option, none, some}
use diddi_pay_backend.Payments.Errors.{Error, Result, ok, err}
use diddi_pay_backend.Payments.Database.{Database}
use diddi_pay_backend.Payments.Session.{
  Session, Action, continue, pure, raise, lift, gets, or_raise, modify, utc_now, fresh_id, raise_if,
  when, branch, ◌>>=◌,
}

pub record KeepsCommitted {A : Type 0} (m : Action A) : Type 0 where
  pub at : (s : Session) → (m s).1.committed ≡ s.committed

module _ {A : Type 0} where
  pub Keeps-pure : (a : A) → KeepsCommitted (pure a)
  Keeps-pure a = record { at = λ s. refl }

  pub Keeps-raise : (e : Error) → KeepsCommitted (raise {A = A} e)
  Keeps-raise e = record { at = λ s. refl }

  pub Keeps-lift : (r : Result A) → KeepsCommitted (lift r)
  Keeps-lift r = record { at = λ s. refl }

  pub Keeps-gets : (f : Database → A) → KeepsCommitted (gets f)
  Keeps-gets f = record { at = λ s. refl }

  pub Keeps-or_raise : (o : Option A) (e : Error) → KeepsCommitted (or_raise o e)
  Keeps-or_raise none e = record { at = λ s. refl }
  Keeps-or_raise (some a) e = record { at = λ s. refl }

  pub Keeps-branch :
      (b : Bool) (m n : Action A)
      → KeepsCommitted m
      → KeepsCommitted n
      → KeepsCommitted (branch b m n)
  Keeps-branch true m n h k = record { at = h.at }
  Keeps-branch false m n h k = record { at = k.at }

pub Keeps-modify : (f : Database → Database) → KeepsCommitted (modify f)
Keeps-modify f = record { at = λ s. refl }

pub Keeps-utc_now : KeepsCommitted utc_now
Keeps-utc_now = record { at = λ s. refl }

pub Keeps-fresh_id : KeepsCommitted fresh_id
Keeps-fresh_id = record { at = λ s. refl }

pub Keeps-raise_if : (b : Bool) (e : Error) → KeepsCommitted (raise_if b e)
Keeps-raise_if true e = record { at = λ s. refl }
Keeps-raise_if false e = record { at = λ s. refl }

pub Keeps-when : (b : Bool) (m : Action (Unit {0})) → KeepsCommitted m → KeepsCommitted (when b m)
Keeps-when true m h = record { at = h.at }
Keeps-when false m h = record { at = λ s. refl }

module _ {A B : Type 0} where
  pub Keeps-bind :
      (m : Action A) (f : A → Action B)
      → KeepsCommitted m
      → ((a : A) → KeepsCommitted (f a))
      → KeepsCommitted (m >>= f)
  Keeps-bind m f h k = record { at = λ s. go (m s) ∙ h.at s }
    where
      go : (o : Result A × Session) → (continue o.0 f o.1).1.committed ≡ o.1.committed
      go (ok a, s') = (k a).at s'
      go (err e, s') = refl

pub ruleset keeps_rules = (
  Keeps-pure, Keeps-raise, Keeps-lift, Keeps-gets, Keeps-or_raise, Keeps-branch, Keeps-modify,
  Keeps-utc_now, Keeps-fresh_id, Keeps-raise_if, Keeps-when, Keeps-bind,
)
