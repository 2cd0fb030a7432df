-- ===== src/Wallet/Store/Ensures.antt =====
-- Operations on the tables of payfund_app/modules/wallet that end, unless they raise, in an answer and a
-- state with a property.
use diddi_pay_backend.Prelude.{Bool, true, false}
use diddi_pay_backend.Wallet.Errors.{Error, Result, ok, err}
use diddi_pay_backend.Wallet.Store.Tables.{Store}
use diddi_pay_backend.Wallet.Store.Maintains.{Maintains, After}
use diddi_pay_backend.Wallet.Store.Actions.{Action, continue, raise, branch, ◌>>=◌}

abbrev pub Ends : {A : Type 0} → (A → Store → Type 0) → Result A × Store → Type 0
Ends P (ok a, s) = P a s
Ends P (err e, s) = Unit

pub record Ensures {A : Type 0} (P : A → Store → Type 0) (m : Action A) : Type 0 where
  pub at : (s : Store) → Ends P (m s)

module _ {B : Type 0} {P : B → Store → Type 0} where
  pub Ensures-raise : (e : Error) → Ensures P (raise e)
  Ensures-raise e = record { at = λ s. tt }

  pub Ensures-branch :
      (b : Bool) (m n : Action B) → Ensures P m → Ensures P n → Ensures P (branch b m n)
  Ensures-branch true m n h k = record { at = h.at }
  Ensures-branch false m n h k = record { at = k.at }

  module _ {A : Type 0} where
    -- Whatever the first part answers.
    pub Ensures-then :
        (m : Action A) (f : A → Action B) → ((a : A) → Ensures P (f a)) → Ensures P (m >>= f)
    Ensures-then m f k = record { at = λ s. go (m s) }
      where
        go : (o : Result A × Store) → Ends P (continue o.0 f o.1)
        go (ok a, s') = (k a).at s'
        go (err e, s') = tt

    -- With what the first part ensures.
    pub Ensures-bind :
        {Q : A → Store → Type 0} (m : Action A) (f : A → Action B)
        → Ensures Q m
        → ((a : A) (s : Store) → Q a s → Ends P (f a s))
        → Ensures P (m >>= f)
    Ensures-bind {Q} m f h k = record { at = λ s. go (m s) (h.at s) }
      where
        go : (o : Result A × Store) → Ends Q o → Ends P (continue o.0 f o.1)
        go (ok a, s') q = k a s' q
        go (err e, s') q = tt

module _ {A B : Type 0} (P : B → Store → Type 0) where
  -- With an invariant that the first part maintains.
  pub Ends-after :
      {I : Store → Type 0} (m : Action A) (f : A → Action B)
      → Maintains I m
      → ((a : A) (s : Store) → I s → Ends P (f a s))
      → (s : Store) → I s
      → Ends P ((m >>= f) s)
  Ends-after {I} m f h k s i = go (m s) (h.at s i)
    where
      go : (o : Result A × Store) → After I o → Ends P (continue o.0 f o.1)
      go (ok a, s') j = k a s' j
      go (err e, s') j = tt
