-- ===== src/Payments/Intents/Lifecycle.antt =====
-- What the use cases of payfund_app/modules/payments/application/use_cases.py do to the statuses.
use diddi_pay_backend.Prelude.{
  ℕ, ◌≡◌, ◌↔◌, refl, ap, ◌∙◌, subst, false, none, some, List, arith, inl, inr, ◌==◌, ==_iff,
  find_row, update_rows, Bool-cases, Option-cases,
}
use diddi_pay_backend.Prelude.Rows.{find_row-update_rows}
use diddi_pay_backend.Payments.Database.{Database}
use diddi_pay_backend.Payments.Status.{PaymentIntentStatus, AttemptStatus}
use diddi_pay_backend.Payments.Errors.{Error, Result, ok, err, Result-cases}
use diddi_pay_backend.Payments.Entities.{
  PaymentIntent, PaymentAttempt, transition_intent, transition_attempt,
}
use diddi_pay_backend.Payments.Session.{Session, commit, pure, ◌>>◌}
use diddi_pay_backend.Payments.Ports.{ProviderResult}
use diddi_pay_backend.Payments.Repositories.Intents
use diddi_pay_backend.Payments.Repositories.Attempts
use diddi_pay_backend.Payments.Intents.{PaymentView, is_sent, cancel_attempt}
use diddi_pay_backend.Payments.Intents.Create.{apply_provider_result}

-- The statuses of a payment and of its only attempt tell the same outcome.
abbrev pub SameOutcome : PaymentIntent → PaymentAttempt → Type 0
SameOutcome intent attempt =
    ((intent.status ≡ PaymentIntentStatus.succeeded) ↔ (attempt.status ≡ AttemptStatus.succeeded))
    × ((intent.status ≡ PaymentIntentStatus.failed) ↔ (attempt.status ≡ AttemptStatus.failed))
    × ((intent.status ≡ PaymentIntentStatus.cancelled) ↔ (attempt.status ≡ AttemptStatus.cancelled))
    × ((intent.status ≡ PaymentIntentStatus.requires_action)
        ↔ (attempt.status ≡ AttemptStatus.requires_action))

applied_cases :
    (now : ℕ) (result : ProviderResult) (intent : PaymentIntent) (attempt : PaymentAttempt)
    (intent' : PaymentIntent) (attempt' : PaymentAttempt)
    → intent.status ≡ PaymentIntentStatus.processing
    → attempt.status ≡ AttemptStatus.pending
    → apply_provider_result now result intent attempt ≡ ok (intent', attempt')
    → (attempt'.status ≡ result.status) × SameOutcome intent' attempt'
unfolding apply_provider_result
applied_cases now result intent attempt intent' attempt' h k e = ground arith

never_refused :
    (now : ℕ) (result : ProviderResult) (intent : PaymentIntent) (attempt : PaymentAttempt)
    (x : Error)
    → intent.status ≡ PaymentIntentStatus.processing
    → attempt.status ≡ AttemptStatus.pending
    → apply_provider_result now result intent attempt ≡ err x
    → ⊥
unfolding apply_provider_result
never_refused now result intent attempt x h k e = ground arith

-- The answer of a processor is never refused by a payment that is processing and its pending
-- attempt: the attempt gets the status of the answer, and the two are afterwards succeeded,
-- failed, cancelled or waiting for an action only together.
pub apply_provider_result_lem :
    (now : ℕ) (result : ProviderResult) (intent : PaymentIntent) (attempt : PaymentAttempt)
    → intent.status ≡ PaymentIntentStatus.processing
    → attempt.status ≡ AttemptStatus.pending
    → (intent' : PaymentIntent) × (attempt' : PaymentAttempt) × (apply_provider_result now result
          intent attempt
        ≡ ok (intent', attempt'))
      × (attempt'.status ≡ result.status)
      × SameOutcome intent' attempt'
apply_provider_result_lem now result intent attempt h k =
    elim (Result-cases (apply_provider_result now result intent attempt)) [
      | inl ((i, a), e) ↦ (
        i,
        a,
        e,
        (applied_cases now result intent attempt i a h k e).0,
        (applied_cases now result intent attempt i a h k e).1,
      )
      | inr (x, e) ↦ absurd (never_refused now result intent attempt x h k e)
    ]

-- The rows of the attempt and of the payment are cancelled.
abbrev pub AreCancelled : ℕ → ℕ → Database → Type 0
AreCancelled attempt_id intent_id db =
    ((a : PaymentAttempt) × (Attempts.get attempt_id db ≡ some a)
      × (a.status ≡ AttemptStatus.cancelled))
    × ((i : PaymentIntent) × (Intents.get intent_id db ≡ some i)
        × (i.status ≡ PaymentIntentStatus.cancelled))

-- What `cancel` does with the last attempt.
abbrev pub Cancels : PaymentView → PaymentAttempt → Session → Result PaymentView × Session → Type 0
Cancels v attempt s (ok view, s') =
    (attempt.status ≡ AttemptStatus.pending)
    × (attempt.provider_reference ≡ none)
    × (view.intent.status ≡ PaymentIntentStatus.cancelled)
    × (s'.committed ≡ s'.db)
    × AreCancelled attempt.id v.intent.id s'.committed
Cancels v attempt s (err e, s') = s'.committed ≡ s.committed

unsent :
    (attempt : PaymentAttempt)
    → is_sent attempt ≡ false
    → (attempt.status ≡ AttemptStatus.pending) × (attempt.provider_reference ≡ none)
unsent attempt h = (ground arith, ground arith)

cancelled_attempt :
    (now : ℕ) (attempt attempt' : PaymentAttempt)
    → transition_attempt now AttemptStatus.cancelled attempt ≡ ok attempt'
    → (attempt'.status ≡ AttemptStatus.cancelled) × (attempt'.id ≡ attempt.id)
unfolding transition_attempt
cancelled_attempt now attempt attempt' h = (ground arith, ground arith)

cancelled_intent :
    (now : ℕ) (intent intent' : PaymentIntent)
    → transition_intent now PaymentIntentStatus.cancelled intent ≡ ok intent'
    → (intent'.status ≡ PaymentIntentStatus.cancelled) × (intent'.id ≡ intent.id)
unfolding transition_intent
cancelled_intent now intent intent' h = (ground arith, ground arith)

-- A row that is found is found after an update at its key.
found_updated :
    {A : Type 0} (key : A → ℕ) (k : ℕ) (f : A → A) (rows : List A) (row : A)
    → ((a : A) → key (f a) ≡ key a)
    → find_row (λ a. key a == k) rows ≡ some row
    → find_row (λ a. key a == k) (update_rows (λ a. key a == k) f rows) ≡ some (f row)
found_updated key k f rows row keeps h =
    find_row-update_rows key f k k rows keeps ∙ rw ((==_iff k k).1 refl, h) refl

-- The row that is found after the update has what the update gives it.
changed_row :
    {A B : Type 0} (key : A → ℕ) (field : A → B) (k k' : ℕ) (f : A → A) (rows : List A) (row : A)
    (b : B)
    → ((a : A) → key (f a) ≡ key a)
    → find_row (λ a. key a == k) rows ≡ some row
    → k ≡ k'
    → field (f row) ≡ b
    → (a : A) × (find_row (λ r. key r == k') (update_rows (λ r. key r == k) f rows) ≡ some a)
      × (field a ≡ b)
changed_row key field k k' f rows row b keeps found same given = (
  f row,
  subst (λ j. find_row (λ r. key r == j) (update_rows (λ r. key r == k) f rows) ≡ some (f row)) same
      (found_updated key k f rows row keeps found),
  given,
)

module _ (v : PaymentView) (attempt : PaymentAttempt) (s : Session) where
  writes_both :
      (attempt' : PaymentAttempt) (intent' : PaymentIntent) (answer : PaymentView)
      → is_sent attempt ≡ false
      → (attempt'.status ≡ AttemptStatus.cancelled) × (attempt'.id ≡ attempt.id)
      → (intent'.status ≡ PaymentIntentStatus.cancelled) × (intent'.id ≡ v.intent.id)
      → answer.intent ≡ intent'
      → Cancels v attempt s
          ((Attempts.save attempt' >> (Intents.save intent' >> (commit >> pure answer))) s)
  unfolding Attempts.save Intents.save Attempts.get Intents.get
  writes_both attempt' intent' answer waits (a_cancelled, a_id) (i_cancelled, i_id) e =
      elim (Option-cases (Attempts.get attempt'.id s.db)) [
        | inl absent ↦ rw absent refl
        | inr (row, found) ↦ elim (Option-cases (Intents.get intent'.id s.db)) [
          | inl absent ↦ rw (found, absent) refl
          | inr (intent_row, intent_found) ↦
              rw (found, intent_found)
                (
                  (unsent attempt waits).0,
                  (unsent attempt waits).1,
                  ap (λ i. i.status) e ∙ i_cancelled,
                  refl,
                  (
                    changed_row (λ r. r.id) (λ r. r.status) attempt'.id attempt.id
                        (Attempts.saved attempt') s.db.attempts row AttemptStatus.cancelled
                        (λ r. refl) found a_id a_cancelled,
                    changed_row (λ r. r.id) (λ r. r.status) intent'.id v.intent.id
                        (Intents.saved intent') s.db.intents intent_row
                        PaymentIntentStatus.cancelled (λ r. refl) intent_found i_id i_cancelled,
                  ),
                )
        ]
      ]

  -- A cancellation that returns had a pending attempt without a provider's reference, answers the
  -- payment as cancelled and has committed the rows of the payment and of the attempt as
  -- cancelled; one that raises commits nothing.
  pub cancel_attempt-Cancels : Cancels v attempt s (cancel_attempt v attempt s)
  unfolding cancel_attempt
  cancel_attempt-Cancels = elim (Bool-cases (is_sent attempt)) [
    | inl sent ↦ rw sent refl
    | inr waits ↦ elim (Result-cases (transition_attempt s.clock AttemptStatus.cancelled attempt)) [
      | inr (x, e) ↦ rw (waits, e) refl
      | inl (attempt', e) ↦
          elim (Result-cases (transition_intent s.clock PaymentIntentStatus.cancelled v.intent)) [
            | inr (x, f) ↦ rw (waits, e, f) refl
            | inl (intent', f) ↦
                rw (waits, e, f)
                  (writes_both attempt' intent' _ waits
                    (cancelled_attempt s.clock attempt attempt' e)
                    (cancelled_intent s.clock v.intent intent' f) refl)
          ]
    ]
  ]
