-- ===== src/Payments/Deliveries/Progress.antt =====
-- A delivery run of payfund_app/modules/payments/application/deliveries.py deals with every row that it
-- claimed.
use diddi_pay_backend.Prelude.{
  ℕ, suc, ◌+◌, ◌≤◌, ◌≡◌, refl, ap, ◌∙◌, String, Option, none, some, List, [], ◌∷◌, length, arith,
  inl, inr, ◌⊎◌, Bool, true, false, not, map, take, length-take-le, select_rows,
}
use diddi_pay_backend.Payments.Errors.{Result, ok, err, callback_delivery_failed}
use diddi_pay_backend.Payments.Database.{PaymentOutboxRecord}
use diddi_pay_backend.Payments.Session.{Session, continue}
use diddi_pay_backend.Payments.Ports.{CallbackTarget}
use diddi_pay_backend.Payments.Repositories.Outbox
use diddi_pay_backend.Payments.Deliveries.{
  DeliverySummary, Sender, deliver, deliver_all, run, target_of, send_to, settle,
}

-- The sender raises no other exception than its own.
abbrev pub OnlyFails : Sender → Type 0
OnlyFails send =
    (target : CallbackTarget) (row : PaymentOutboxRecord)
    → (send target row ≡ ok tt)
      ⊎ ((message : String) × (send target row ≡ err (callback_delivery_failed message)))

abbrev one_if : Bool → ℕ
one_if true = 1
one_if false = 0

abbrev pub count_rows : (PaymentOutboxRecord → Bool) → List PaymentOutboxRecord → ℕ
count_rows p [] = 0
count_rows p (row ∷ rows) = one_if (p row) + count_rows p rows

abbrev takes : Result (Unit {0}) → Bool
takes (ok _) = true
takes (err e) = false

-- The call returns, the counters have grown by `a`, `b` and `c`, and as many rows were scanned.
abbrev Tallies : ℕ → ℕ → ℕ → DeliverySummary → Result DeliverySummary × Session → Type 0
Tallies a b c t (ok t', s') =
    (t'.delivered ≡ t.delivered + a)
    × (t'.retried ≡ t.retried + b)
    × (t'.unavailable ≡ t.unavailable + c)
    × (t'.scanned ≡ t.scanned)
Tallies a b c t (err e, s') = ⊥

abbrev lacks : Option CallbackTarget → Bool
lacks none = true
lacks (some target) = false

module _ (send : Sender) (targets : String → Option CallbackTarget) where
  abbrev taken_by : PaymentOutboxRecord → Option CallbackTarget → Bool
  taken_by row none = false
  taken_by row (some target) = takes (send target row)

  abbrev refused_by : PaymentOutboxRecord → Option CallbackTarget → Bool
  refused_by row none = false
  refused_by row (some target) = not (takes (send target row))

  -- The row has a target, which takes it or refuses it, or it has none.
  abbrev pub is_taken : PaymentOutboxRecord → Bool
  is_taken row = taken_by row (target_of targets row)

  abbrev pub is_refused : PaymentOutboxRecord → Bool
  is_refused row = refused_by row (target_of targets row)

  abbrev pub has_no_target : PaymentOutboxRecord → Bool
  has_no_target row = lacks (target_of targets row)

  -- What a run answers: the rows that it claimed are at most `limit`, and they are counted as delivered if
  -- their target takes them, as retried if it refuses them and as unavailable if they have none.
  abbrev pub IsComplete : ℕ → List PaymentOutboxRecord → Result DeliverySummary × Session → Type 0
  IsComplete limit rows (ok t, s') =
      (t.scanned ≡ length rows)
      × (t.scanned ≤ limit)
      × (t.delivered ≡ count_rows is_taken rows)
      × (t.retried ≡ count_rows is_refused rows)
      × (t.unavailable ≡ count_rows has_no_target rows)
  IsComplete limit rows (err e, s') = ⊥

length-map : {A B : Type 0} (f : A → B) (xs : List A) → length (map f xs) ≡ length xs
length-map f [] = refl
length-map f (x ∷ xs) = ap suc (length-map f xs)

length-claimed :
    (now n : ℕ) (rows : List PaymentOutboxRecord)
    → length (map (Outbox.claimed now) (take n rows)) ≤ n
length-claimed now n rows =
    omega (arith, length-map (Outbox.claimed now) (take n rows), length-take-le n rows)

-- The rows that a run claims: those that are due, at most `limit`, with a lease from now on.
abbrev pub claimed_rows : ℕ → Session → List PaymentOutboxRecord
claimed_rows limit s =
    map (Outbox.claimed s.clock) (take limit (select_rows (Outbox.is_due s.clock 300) s.db.outbox))

module _ (send : Sender) (targets : String → Option CallbackTarget) (h : OnlyFails send) where
  settle-Tallies :
      (row : PaymentOutboxRecord) (t : DeliverySummary) (s : Session) (r : Result (Unit {0}))
      → (r ≡ ok tt) ⊎ ((message : String) × (r ≡ err (callback_delivery_failed message)))
      → Tallies (one_if (takes r)) (one_if (not (takes r))) 0 t (settle row t r s)
  unfolding Outbox.mark_delivered Outbox.mark_failed
  settle-Tallies row t s r (inl e) = rw e (omega arith, omega arith, omega arith, refl)
  settle-Tallies row t s r (inr (m, e)) = rw e (omega arith, omega arith, omega arith, refl)

  send_to-Tallies :
      (row : PaymentOutboxRecord) (t : DeliverySummary) (s : Session) (o : Option CallbackTarget)
      → Tallies
          (one_if (taken_by send targets row o))
          (one_if (refused_by send targets row o))
          (one_if (lacks o))
          t
          (send_to send row t o s)
  unfolding Outbox.mark_failed
  send_to-Tallies row t s none = (omega arith, omega arith, omega arith, refl)
  send_to-Tallies row t s (some target) = settle-Tallies row t s (send target row) (h target row)

  deliver_all-Tallies :
      (rows : List PaymentOutboxRecord) (t : DeliverySummary) (s : Session)
      → Tallies
          (count_rows (is_taken send targets) rows)
          (count_rows (is_refused send targets) rows)
          (count_rows (has_no_target send targets) rows)
          t
          (deliver_all send targets rows t s)
  unfolding deliver_all deliver
  deliver_all-Tallies [] t s = (omega arith, omega arith, omega arith, refl)
  deliver_all-Tallies (row ∷ rows) t s =
      next _ _ _ _ _ _ (λ t' s'. deliver_all-Tallies rows t' s') (deliver send targets row t s)
        (send_to-Tallies row t s (target_of targets row))
    where
      further :
          (a b c a' b' c' : ℕ) (t' : DeliverySummary) (s' : Session)
          → Tallies a b c t (ok t', s')
          → (o : Result DeliverySummary × Session) → Tallies a' b' c' t' o
          → Tallies (a + a') (b + b') (c + c') t o
      further a b c a' b' c' t' s' (p, q, r, e) (ok t'', s'') (p', q', r', e') =
          (omega (arith, p, p'), omega (arith, q, q'), omega (arith, r, r'), e' ∙ e)
      further a b c a' b' c' t' s' k (err x, s'') d = absurd d

      next :
          (a b c a' b' c' : ℕ)
          → ((t' : DeliverySummary) (s' : Session)
              → Tallies a' b' c' t' (deliver_all send targets rows t' s'))
          → (o : Result DeliverySummary × Session) → Tallies a b c t o
          → Tallies (a + a') (b + b') (c + c') t (continue o.0 (deliver_all send targets rows) o.1)
      next a b c a' b' c' rest (ok t', s') k =
          further a b c a' b' c' t' s' k (deliver_all send targets rows t' s') (rest t' s')
      next a b c a' b' c' rest (err x, s') k = absurd k

  -- If the sender raises nothing but its own exception, a run returns. It claims at most `limit`
  -- rows, and its summary has the number of them that the sender takes, as delivered, of those
  -- that it refuses, as to be retried, and of those without a target, as unavailable.
  pub run-IsComplete :
      (limit : ℕ) (s : Session)
      → IsComplete send targets limit (claimed_rows limit s) (run send targets limit s)
  unfolding run Outbox.claim
  run-IsComplete limit s =
      complete (claimed_rows limit s)
        (length-claimed s.clock limit (select_rows (Outbox.is_due s.clock 300) s.db.outbox))
        (deliver_all send targets _ _ _) (deliver_all-Tallies _ _ _)
    where
      complete :
          (rows : List PaymentOutboxRecord)
          → length rows ≤ limit
          → (o : Result DeliverySummary × Session)
          → Tallies
              (count_rows (is_taken send targets) rows)
              (count_rows (is_refused send targets) rows)
              (count_rows (has_no_target send targets) rows)
              (record { scanned = length rows; delivered = 0; retried = 0; unavailable = 0 })
              o
          → IsComplete send targets limit rows o
      complete rows le (ok t', s') (p, q, r, e) =
          (e, omega (arith, e), omega (arith, p), omega (arith, q), omega (arith, r))
      complete rows le (err x, s') k = absurd k
