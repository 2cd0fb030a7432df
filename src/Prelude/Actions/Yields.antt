-- ===== src/Prelude/Actions/Yields.antt =====
-- Operations that end, unless they raise, in an answer and a state with a property; `None` of it means that
-- they raise.
use mathlib.Core.Path.{◌≡◌, refl}
use mathlib.Core.Bool.{Bool, true, false}
use mathlib.Core.Option.{Option, none, some}
use diddi_pay_backend.Prelude.Actions.{
  Result, ok, err, Action, gets, branch, or_raise, raise_if, continue, ◌>>=◌, ◌>>◌,
}

abbrev pub Ending : {S E A : Type 0} → (A → S → Type 0) → Result E A × S → Type 0
Ending P (ok a, s) = P a s
Ending P (err e, s) = Unit

pub Ending-both :
    {S E A : Type 0} (P Q : A → S → Type 0) (o : Result E A × S)
    → Ending P o
    → Ending Q o
    → Ending (λ a s. P a s × Q a s) o
Ending-both P Q (ok a, s) p q = (p, q)
Ending-both P Q (err e, s) p q = tt

pub record Yields {S E A : Type 0} (P : A → S → Type 0) (m : Action S E A) : Type 0 where
  pub at : (s : S) → Ending P (m s)

abbrev pub Never : {S A : Type 0} → A → S → Type 0
Never a s = ⊥

module _ {S E B : Type 0} (P : B → S → Type 0) where
  pub Yields-branch :
      (b : Bool) (m n : Action S E B) → Yields P m → Yields P n → Yields P (branch b m n)
  Yields-branch true m n h k = record { at = h.at }
  Yields-branch false m n h k = record { at = k.at }

  pub Yields-raise_if :
      (b : Bool) (e : E) (m : Action S E B)
      → (b ≡ false → Yields P m)
      → Yields P (raise_if b e >> m)
  Yields-raise_if true e m h = record { at = λ s. tt }
  Yields-raise_if false e m h = record { at = (h refl).at }

  module _ {A : Type 0} where
    -- Whatever the first part answers.
    pub Yields-then :
        (m : Action S E A) (f : A → Action S E B) → ((a : A) → Yields P (f a)) → Yields P (m >>= f)
    Yields-then m f k = record { at = λ s. go (m s) }
      where
        go : (o : Result E A × S) → Ending P (continue o.0 f o.1)
        go (ok a, s') = (k a).at s'
        go (err e, s') = tt

    -- A first part that raises.
    pub Yields-Never :
        (m : Action S E A) (f : A → Action S E B) → Yields Never m → Yields P (m >>= f)
    Yields-Never m f h = record { at = λ s. go (m s) (h.at s) }
      where
        go : (o : Result E A × S) → Ending Never o → Ending P (continue o.0 f o.1)
        go (ok a, s') q = absurd q
        go (err e, s') q = tt

    -- With what the first part ensures.
    pub Yields-bind :
        (Q : A → S → Type 0) (m : Action S E A) (f : A → Action S E B)
        → Yields Q m
        → ((a : A) (s : S) → Q a s → Ending P (f a s))
        → Yields P (m >>= f)
    Yields-bind Q m f h k = record { at = λ s. go (m s) (h.at s) }
      where
        go : (o : Result E A × S) → Ending Q o → Ending P (continue o.0 f o.1)
        go (ok a, s') q = k a s' q
        go (err e, s') q = tt

    -- A row that is read, or the exception for one that is missing.
    pub Yields-found :
        (g : S → Option A) (e : E) (f : A → Action S E B)
        → ((a : A) (s : S) → g s ≡ some a → Yields P (f a))
        → Yields P (gets g >>= λ o. or_raise o e >>= f)
    Yields-found g e f h = record { at = λ s. go s (g s) refl }
      where
        go : (s : S) (o : Option A) → g s ≡ o → Ending P ((or_raise o e >>= f) s)
        go s none p = tt
        go s (some a) p = (h a s p).at s
