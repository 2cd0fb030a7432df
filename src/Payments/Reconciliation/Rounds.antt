-- ===== src/Payments/Reconciliation/Rounds.antt =====
-- How a round of payfund_app/modules/payments/application/reconciliation.py counts its attempt.
use diddi_pay_backend.Prelude.{
  ◌+◌, ◌≡◌, ◌≢◌, refl, subst, sym, Bool, false, String, Option, none, some, arith, Bool-cases, inl,
  inr,
}
use diddi_pay_backend.Payments.Status.{AttemptStatus, attempt_enum}
use diddi_pay_backend.Payments.Errors.{
  Result, ok, err, processor_routing_error, processor_call_uncertain,
}
use diddi_pay_backend.Payments.Entities.{PaymentIntent, PaymentAttempt}
use diddi_pay_backend.Payments.Payload.{Fields}
use diddi_pay_backend.Payments.Database.{Database}
use diddi_pay_backend.Payments.Session.{Session, Action, continue, ◌>>=◌, pure}
use diddi_pay_backend.Payments.Ports.{PaymentProcessorPort, ProviderResult}
use diddi_pay_backend.Payments.Routing
use diddi_pay_backend.Payments.Repositories.Intents
use diddi_pay_backend.Payments.Reconciliation.Matching.{
  IsAbout, differs, agrees_lem, differs_lem, differing,
}
use diddi_pay_backend.Payments.Reconciliation.{
  ReconciliationSummary, one_failed, one_pending, one_mismatched, count_status, disagrees, note,
  apply_result, with_intent, with_result, with_processor, reconcile_attempt,
}

-- What the processor of an attempt answers.
abbrev pub Answers : Routing.ProcessorRegistry → PaymentAttempt → Result ProviderResult → Type 0
Answers registry attempt r =
    (p : PaymentProcessorPort) × (Routing.get attempt.processor registry ≡ ok p)
    × (p.verify_payment attempt.provider_reference ≡ r)

-- The cases of a round that returns, each with its counter.
pub data Tallied (registry : Routing.ProcessorRegistry) (attempt : PaymentAttempt) (db : Database)
    (t t' : ReconciliationSummary) : Type 0 where
  no_processor :
      (message : String)
      → Routing.get attempt.processor registry ≡ err (processor_routing_error message)
      → t' ≡ record t { pending = t.pending + 1 }
      → Tallied registry attempt db t t'
  uncertain :
      (reference message : String)
      → Answers registry attempt (err (processor_call_uncertain reference message))
      → t' ≡ record t { pending = t.pending + 1 }
      → Tallied registry attempt db t t'
  no_payment :
      (result : ProviderResult)
      → Answers registry attempt (ok result)
      → Intents.get attempt.payment_intent_id db ≡ none
      → t' ≡ record t { failed = t.failed + 1 }
      → Tallied registry attempt db t t'
  other_payment :
      (result : ProviderResult) (intent : PaymentIntent)
      → Answers registry attempt (ok result)
      → Intents.get attempt.payment_intent_id db ≡ some intent
      → result.status ≡ AttemptStatus.succeeded
      → ¬ IsAbout result attempt
      → t' ≡ record t { mismatched = t.mismatched + 1 }
      → Tallied registry attempt db t t'
  captured :
      (result : ProviderResult) (intent : PaymentIntent)
      → Answers registry attempt (ok result)
      → Intents.get attempt.payment_intent_id db ≡ some intent
      → result.status ≡ AttemptStatus.succeeded
      → IsAbout result attempt
      → t' ≡ record t { succeeded = t.succeeded + 1 }
      → Tallied registry attempt db t t'
  lost :
      (result : ProviderResult) (intent : PaymentIntent)
      → Answers registry attempt (ok result)
      → Intents.get attempt.payment_intent_id db ≡ some intent
      → result.status ≡ AttemptStatus.failed
      → t' ≡ record t { failed = t.failed + 1 }
      → Tallied registry attempt db t t'
  still_open :
      (result : ProviderResult) (intent : PaymentIntent)
      → Answers registry attempt (ok result)
      → Intents.get attempt.payment_intent_id db ≡ some intent
      → result.status ≢ AttemptStatus.succeeded
      → result.status ≢ AttemptStatus.failed
      → t' ≡ record t { pending = t.pending + 1 }
      → Tallied registry attempt db t t'

-- A session that returns has the property.
abbrev pub Ends : (ReconciliationSummary → Type 0) → Result ReconciliationSummary × Session → Type 0
Ends P (ok t, s) = P t
Ends P (err e, s) = Unit

record Gives (u : ReconciliationSummary) (m : Action ReconciliationSummary) : Type 0 where
  at : (s : Session) → Ends (λ t. t ≡ u) (m s)

Gives-pure : (u : ReconciliationSummary) → Gives u (pure u)
Gives-pure u = record { at = λ s. refl }

Gives-after :
    {A : Type 0} (u : ReconciliationSummary) (m : Action A) (f : A → Action ReconciliationSummary)
    → ((a : A) → Gives u (f a))
    → Gives u (m >>= f)
Gives-after {A = A} u m f h = record { at = λ s. go (m s) }
  where
    go : (o : Result A × Session) → Ends (λ t. t ≡ u) (continue o.0 f o.1)
    go (ok a, s') = (h a).at s'
    go (err e, s') = tt

pub Ends-map :
    (P Q : ReconciliationSummary → Type 0)
    → ((t : ReconciliationSummary) → P t → Q t)
    → (o : Result ReconciliationSummary × Session) → Ends P o
    → Ends Q o
Ends-map P Q h (ok t, s) p = h t p
Ends-map P Q h (err e, s) p = tt

-- The counter of a status, with what `disagrees` says of it.
counted_status :
    (registry : Routing.ProcessorRegistry) (attempt : PaymentAttempt) (db : Database)
    (t : ReconciliationSummary) (result : ProviderResult) (intent : PaymentIntent)
    → Answers registry attempt (ok result)
    → Intents.get attempt.payment_intent_id db ≡ some intent
    → disagrees result attempt ≡ false
    → (status : AttemptStatus) → result.status ≡ status
    → Tallied registry attempt db t (count_status status t)
unfolding differs
counted_status registry attempt db t result intent r found h AttemptStatus.succeeded e =
    captured result intent r found e (agrees_lem result attempt (ground arith)) refl
counted_status registry attempt db t result intent r found h AttemptStatus.failed e =
    lost result intent r found e refl
counted_status registry attempt db t result intent r found h _ e =
    still_open result intent r found (λ k. ground arith) (λ k. ground arith) refl

module _ (digest : Fields → String) (has_outbox has_accounting : Bool) where
  note-Gives :
      (attempt : PaymentAttempt) (payload : Fields) (reason : String) (u : ReconciliationSummary)
      → Gives u (note digest has_outbox has_accounting attempt payload reason u)
  note-Gives attempt payload reason u = search (Gives-after u, Gives-pure u) depth 6

  apply_result-Gives :
      (result : ProviderResult) (attempt : PaymentAttempt) (t : ReconciliationSummary)
      (intent : PaymentIntent)
      → Gives
          (count_status result.status t)
          (apply_result digest has_outbox has_accounting result attempt t intent)
  unfolding apply_result
  apply_result-Gives result attempt t intent =
      search (Gives-after (count_status result.status t), Gives-pure (count_status result.status t))
        depth 12

  round_lem :
      (registry : Routing.ProcessorRegistry) (attempt : PaymentAttempt) (t : ReconciliationSummary)
      (s : Session) (result : ProviderResult)
      → Answers registry attempt (ok result)
      → (o : Option PaymentIntent) → Intents.get attempt.payment_intent_id s.db ≡ o
      → Ends
          (Tallied registry attempt s.db t)
          (with_intent digest has_outbox has_accounting result attempt t o s)
  round_lem registry attempt t s result r none absent =
      Ends-map (λ u. u ≡ one_failed t) (Tallied registry attempt s.db t)
        (λ u e. no_payment result r absent e) _ ((note-Gives attempt _ _ (one_failed t)).at s)
  round_lem registry attempt t s result r (some intent) found =
      elim (Bool-cases (disagrees result attempt)) [
        | inl other ↦ rw other (
            Ends-map (λ u. u ≡ one_mismatched t) (Tallied registry attempt s.db t)
              (λ u e.
                other_payment result intent r found (ground arith)
                  (differs_lem result attempt (differing result attempt other)) e)
              _ ((note-Gives attempt _ _ (one_mismatched t)).at s))
        | inr same ↦ rw same (
            Ends-map (λ u. u ≡ count_status result.status t) (Tallied registry attempt s.db t)
              (λ u e. subst (Tallied registry attempt s.db t) (sym e) (
                counted_status registry attempt s.db t result intent r found same result.status
                  refl))
              _ ((apply_result-Gives result attempt t intent).at s))
      ]

  result_lem :
      (registry : Routing.ProcessorRegistry) (attempt : PaymentAttempt) (t : ReconciliationSummary)
      (s : Session) (r : Result ProviderResult)
      → Answers registry attempt r
      → Ends
          (Tallied registry attempt s.db t)
          (with_result digest has_outbox has_accounting attempt t r s)
  result_lem registry attempt t s (ok result) r =
      round_lem registry attempt t s result r (Intents.get attempt.payment_intent_id s.db) refl
  result_lem registry attempt t s (err (processor_call_uncertain reference message)) r =
      Ends-map (λ u. u ≡ one_pending t) (Tallied registry attempt s.db t)
        (λ u e. uncertain reference message r e) _ ((note-Gives attempt _ _ (one_pending t)).at s)
  result_lem registry attempt t s (err e) r = tt

  processor_lem :
      (registry : Routing.ProcessorRegistry) (attempt : PaymentAttempt) (t : ReconciliationSummary)
      (s : Session) (p : Result PaymentProcessorPort)
      → Routing.get attempt.processor registry ≡ p
      → Ends
          (Tallied registry attempt s.db t)
          (with_processor digest has_outbox has_accounting attempt t p s)
  processor_lem registry attempt t s (ok p) e =
      result_lem registry attempt t s (p.verify_payment attempt.provider_reference) (p, e, refl)
  processor_lem registry attempt t s (err (processor_routing_error message)) e =
      Ends-map (λ u. u ≡ one_pending t) (Tallied registry attempt s.db t)
        (λ u k. no_processor message e k) _ ((note-Gives attempt _ _ (one_pending t)).at s)
  processor_lem registry attempt t s (err x) e = tt

  pub reconcile_attempt-Tallied :
      (registry : Routing.ProcessorRegistry) (attempt : PaymentAttempt) (t : ReconciliationSummary)
      (s : Session)
      → Ends
          (Tallied registry attempt s.db t)
          (reconcile_attempt digest has_outbox has_accounting registry attempt t s)
  unfolding reconcile_attempt
  reconcile_attempt-Tallied registry attempt t s =
      processor_lem registry attempt t s (Routing.get attempt.processor registry) refl
