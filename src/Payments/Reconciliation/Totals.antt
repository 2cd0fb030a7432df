-- ===== src/Payments/Reconciliation/Totals.antt =====
-- The summary of a run of payfund_app/modules/payments/application/reconciliation.py.
use diddi_pay_backend.Prelude.{
  ℕ, ◌+◌, ◌≤◌, ◌≡◌, ◌⊎◌, refl, subst, sym, ◌∙◌, Bool, String, List, [], ◌∷◌, length, leb, arith,
  Bool-cases, inl, inr, length-take-le,
}
use diddi_pay_backend.Payments.Errors.{Error, Result, ok, err}
use diddi_pay_backend.Payments.Entities.{PaymentAttempt}
use diddi_pay_backend.Payments.Payload.{Fields}
use diddi_pay_backend.Payments.Database.{Database}
use diddi_pay_backend.Payments.Session.{Session, Action, continue, for_each}
use diddi_pay_backend.Payments.Routing
use diddi_pay_backend.Payments.Repositories.Attempts
use diddi_pay_backend.Payments.Reconciliation.{
  ReconciliationSummary, reconcile_attempt, candidates, summary_of, run,
}
use diddi_pay_backend.Payments.Reconciliation.Rounds.{
  Tallied, no_processor, uncertain, no_payment, other_payment, captured, lost, still_open, Ends,
  Ends-map, reconcile_attempt-Tallied,
}

abbrev pub total : ReconciliationSummary → ℕ
total t = t.succeeded + t.failed + t.pending + t.mismatched

Tallied-total :
    (registry : Routing.ProcessorRegistry) (attempt : PaymentAttempt) (db : Database)
    (t t' : ReconciliationSummary)
    → Tallied registry attempt db t t'
    → (t'.scanned ≡ t.scanned) × (total t' ≡ total t + 1)
Tallied-total registry attempt db t t' (no_processor m g e) = rw e (refl, omega arith)
Tallied-total registry attempt db t t' (uncertain r m g e) = rw e (refl, omega arith)
Tallied-total registry attempt db t t' (no_payment r g f e) = rw e (refl, omega arith)
Tallied-total registry attempt db t t' (other_payment r i g f k n e) = rw e (refl, omega arith)
Tallied-total registry attempt db t t' (captured r i g f k n e) = rw e (refl, omega arith)
Tallied-total registry attempt db t t' (lost r i g f k e) = rw e (refl, omega arith)
Tallied-total registry attempt db t t' (still_open r i g f k n e) = rw e (refl, omega arith)

module _ (digest : Fields → String) (has_outbox has_accounting : Bool)
    (registry : Routing.ProcessorRegistry) where
  abbrev one_round : PaymentAttempt → ReconciliationSummary → Action ReconciliationSummary
  one_round = reconcile_attempt digest has_outbox has_accounting registry

  -- One round for each attempt, in the state that the round before it left, until one raises.
  abbrev pub Rounds :
      List PaymentAttempt
      → ReconciliationSummary
      → Session
      → Result ReconciliationSummary × Session
      → Type 0
  Rounds [] t s o = o ≡ (ok t, s)
  Rounds (attempt ∷ attempts) t s o =
      ((e : Error) × (s' : Session) × (one_round attempt t s ≡ (err e, s')) × (o ≡ (err e, s')))
      ⊎ ((t' : ReconciliationSummary) × (s' : Session) × (one_round attempt t s ≡ (ok t', s'))
          × Tallied registry attempt s.db t t'
          × Rounds attempts t' s' o)

  for_each-Rounds :
      (attempts : List PaymentAttempt) (t : ReconciliationSummary) (s : Session)
      → Rounds attempts t s (for_each attempts t one_round s)
  unfolding for_each
  for_each-Rounds [] t s = refl
  for_each-Rounds (attempt ∷ attempts) t s =
      go (one_round attempt t s) refl
        (reconcile_attempt-Tallied digest has_outbox has_accounting registry attempt t s)
        (λ t' s'. for_each-Rounds attempts t' s')
    where
      go :
          (o : Result ReconciliationSummary × Session)
          → one_round attempt t s ≡ o
          → Ends (Tallied registry attempt s.db t) o
          → ((t' : ReconciliationSummary) (s' : Session)
              → Rounds attempts t' s' (for_each attempts t' one_round s'))
          → Rounds (attempt ∷ attempts) t s (continue o.0 (λ c. for_each attempts c one_round) o.1)
      go (ok t', s') e k rest = inr (t', s', e, k, rest t' s')
      go (err x, s') e k rest = inl (x, s', e, refl)

  -- The counters of a summary add up to its scanned attempts.
  abbrev AddUp : ℕ → ReconciliationSummary → ReconciliationSummary → Type 0
  AddUp n t u = (u.scanned ≡ t.scanned) × (total u ≡ total t + n)

  Rounds-total :
      (attempts : List PaymentAttempt) (t : ReconciliationSummary) (s : Session)
      (o : Result ReconciliationSummary × Session)
      → Rounds attempts t s o
      → Ends (AddUp (length attempts) t) o
  Rounds-total [] t s (ok u, s') e = subst (Ends (AddUp 0 t)) (sym e) (refl, omega arith)
  Rounds-total [] t s (err x, s') e = tt
  Rounds-total (attempt ∷ attempts) t s (err x, s') e = tt
  Rounds-total (attempt ∷ attempts) t s (ok u, s'') (inl (x, s', e, k)) = cc
  Rounds-total (attempt ∷ attempts) t s (ok u, s'') (inr (t', s', e, k, rest)) =
      let (same, more) = Tallied-total registry attempt s.db t t' k in
      let (same', more') = Rounds-total attempts t' s' (ok u, s'') rest in
      (same' ∙ same, omega (arith, more, more'))

  candidates_within :
      (now minimum_age_seconds limit : ℕ) (db : Database)
      → length (candidates digest has_outbox has_accounting now minimum_age_seconds limit db)
        ≤ limit
  unfolding Attempts.pending_for_reconciliation
  candidates_within now minimum_age_seconds limit db =
      elim (Bool-cases (leb minimum_age_seconds now)) [
        | inl old ↦ rw old (length-take-le limit _)
        | inr young ↦ rw young (omega arith)
      ]

  -- At most `limit` attempts, one round for each, and a summary that counts each of them once.
  abbrev pub IsTallied :
      ℕ → List PaymentAttempt → Session → Result ReconciliationSummary × Session → Type 0
  IsTallied limit attempts s o =
      (length attempts ≤ limit)
      × Rounds attempts (summary_of digest has_outbox has_accounting (length attempts)) s o
      × Ends (λ u. (u.scanned ≡ length attempts) × (total u ≡ length attempts)) o

  -- A run of the reconciliation handles at most `limit` attempts, each in the state that the round
  -- before it left, until a round raises. A round that returns adds one to one counter and keeps
  -- the others: pending without a processor or without an answer in time, failed without the
  -- payment or when the provider says so, succeeded on a success with the reference, amount and
  -- currency of the attempt, mismatched on any other success, else pending. A run that returns has
  -- scanned as many attempts as it counts.
  pub run-IsTallied :
      (minimum_age_seconds limit : ℕ) (s : Session)
      → IsTallied limit
          (candidates digest has_outbox has_accounting s.clock minimum_age_seconds limit s.db)
          s
          (run digest has_outbox has_accounting registry minimum_age_seconds limit s)
  unfolding run
  run-IsTallied minimum_age_seconds limit s =
      let attempts : List PaymentAttempt =
        candidates digest has_outbox has_accounting s.clock minimum_age_seconds limit s.db in
      let t : ReconciliationSummary =
        summary_of digest has_outbox has_accounting (length attempts) in
      let rounds : Rounds attempts t s (for_each attempts t one_round s) =
        for_each-Rounds attempts t s in
      (
        candidates_within s.clock minimum_age_seconds limit s.db,
        rounds,
        Ends-map (AddUp (length attempts) t)
            (λ u. (u.scanned ≡ length attempts) × (total u ≡ length attempts))
            (λ u (h, k). (h, omega (arith, k))) (for_each attempts t one_round s)
            (Rounds-total attempts t s (for_each attempts t one_round s) rounds),
      )
