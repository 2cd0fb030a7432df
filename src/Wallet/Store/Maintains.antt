-- ===== src/Wallet/Store/Maintains.antt =====
-- Operations on the tables of payfund_app/modules/wallet that maintain an invariant unless they raise: one
-- rule for each way to build one.
use diddi_pay_backend.Prelude.{Bool, true, false}
use diddi_pay_backend.Wallet.Errors.{Error, Result, ok, err}
use diddi_pay_backend.Wallet.Store.Tables.{Store}
use diddi_pay_backend.Wallet.Store.Actions.{
  Action, continue, pure, raise, lift, gets, branch, raise_if, ◌>>=◌,
}

-- An outcome that keeps its state only if it did not raise.
abbrev pub After : {A : Type 0} → (Store → Type 0) → Result A × Store → Type 0
After I (ok a, s) = I s
After I (err e, s) = Unit

pub record Maintains (I : Store → Type 0) {A : Type 0} (m : Action A) : Type 0 where
  pub at : (s : Store) → I s → After I (m s)

module _ {I : Store → Type 0} where
  module _ {A : Type 0} where
    pub Maintains-pure : (a : A) → Maintains I (pure a)
    Maintains-pure a = record { at = λ s h. h }

    pub Maintains-raise : (e : Error) → Maintains I (raise {A = A} e)
    Maintains-raise e = record { at = λ s h. tt }

    pub Maintains-lift : (r : Result A) → Maintains I (lift r)
    Maintains-lift (ok a) = record { at = λ s h. h }
    Maintains-lift (err e) = record { at = λ s h. tt }

    pub Maintains-gets : (f : Store → A) → Maintains I (gets f)
    Maintains-gets f = record { at = λ s h. h }

    pub Maintains-branch :
        (b : Bool) (m n : Action A) → Maintains I m → Maintains I n → Maintains I (branch b m n)
    Maintains-branch true m n h k = record { at = h.at }
    Maintains-branch false m n h k = record { at = k.at }

  pub Maintains-raise_if : (b : Bool) (e : Error) → Maintains I (raise_if b e)
  Maintains-raise_if true e = record { at = λ s h. tt }
  Maintains-raise_if false e = record { at = λ s h. h }

  module _ {A B : Type 0} where
    pub Maintains-bind :
        (m : Action A) (f : A → Action B)
        → Maintains I m
        → ((a : A) → Maintains I (f a))
        → Maintains I (m >>= f)
    Maintains-bind m f h k = record { at = λ s i. go (m s) (h.at s i) }
      where
        go : (o : Result A × Store) → After I o → After I (continue o.0 f o.1)
        go (ok a, s') i = (k a).at s' i
        go (err e, s') i = tt

pub ruleset maintains_rules = (
  Maintains-pure, Maintains-raise, Maintains-lift, Maintains-gets, Maintains-branch,
  Maintains-raise_if, Maintains-bind,
)
