-- ===== src/Prelude/Actions/Rules.antt =====
-- Operations that may raise, and what holds after those that did not: one rule for each way to build one.
use mathlib.Core.Bool.{Bool, true, false}
use mathlib.Core.Option.{Option, none, some}
use diddi_pay_backend.Prelude.Actions.{
  Result, ok, err, Action, pure, raise, lift, gets, branch, or_raise, kept, request, continue,
  ◌>>=◌, raise_if,
}

abbrev pub After : {S E A : Type 0} → (S → Type 0) → Result E A × S → Type 0
After I (ok a, s) = I s
After I (err e, s) = Unit

pub record Maintains {S : Type 0} (I : S → Type 0) {E A : Type 0} (m : Action S E A) : Type 0 where
  pub at : (s : S) → I s → After I (m s)

module _ {S : Type 0} {I : S → Type 0} {E : Type 0} where
  module _ {A : Type 0} where
    pub Maintains-pure : (a : A) → Maintains I (pure {E = E} a)
    Maintains-pure a = record { at = λ s h. h }

    pub Maintains-raise : (e : E) → Maintains I (raise {A = A} e)
    Maintains-raise e = record { at = λ s h. tt }

    pub Maintains-lift : (r : Result E A) → Maintains I (lift r)
    Maintains-lift (ok a) = record { at = λ s h. h }
    Maintains-lift (err e) = record { at = λ s h. tt }

    pub Maintains-gets : (f : S → A) → Maintains I (gets {E = E} f)
    Maintains-gets f = record { at = λ s h. h }

    pub Maintains-or_raise : (o : Option A) (e : E) → Maintains I (or_raise o e)
    Maintains-or_raise none e = record { at = λ s h. tt }
    Maintains-or_raise (some a) e = record { at = λ s h. h }

    pub Maintains-branch :
        (b : Bool) (m n : Action S E A) → Maintains I m → Maintains I n → Maintains I (branch b m n)
    Maintains-branch true m n h k = record { at = h.at }
    Maintains-branch false m n h k = record { at = k.at }

    -- A request maintains what its operation maintains, whatever it answers.
    pub request-Maintains : (m : Action S E A) → Maintains I m → (s : S) → I s → I (request m s).1
    unfolding request
    request-Maintains m k s h = go (m s) (k.at s h)
      where
        go : (o : Result E A × S) → After I o → I (kept s o.0 o.1).1
        go (ok a, s') i = i
        go (err e, s') i = h

  pub Maintains-raise_if : (b : Bool) (e : E) → Maintains I (raise_if b e)
  Maintains-raise_if true e = record { at = λ s h. tt }
  Maintains-raise_if false e = record { at = λ s h. h }

  module _ {A B : Type 0} where
    pub Maintains-bind :
        (m : Action S E A) (f : A → Action S E B)
        → Maintains I m
        → ((a : A) → Maintains I (f a))
        → Maintains I (m >>= f)
    Maintains-bind m f h k = record { at = λ s i. go (m s) (h.at s i) }
      where
        go : (o : Result E A × S) → After I o → After I (continue o.0 f o.1)
        go (ok a, s') i = (k a).at s' i
        go (err e, s') i = tt

pub ruleset maintains_rules = (
  Maintains-pure, Maintains-raise, Maintains-lift, Maintains-gets, Maintains-or_raise,
  Maintains-branch, Maintains-raise_if, Maintains-bind,
)

-- What an operation ensures of its answer and of the state before and after it.
abbrev pub Ends : {S E A : Type 0} → (S → A → S → Type 0) → S → Result E A × S → Type 0
Ends P before (ok a, s) = P before a s
Ends P before (err e, s) = Unit
