-- ===== src/Payments/Webhooks/Settled.antt =====
-- An accepted webhook is settled in the inbox (payfund_app/modules/payments/application/webhooks.py).
use diddi_pay_backend.Prelude.{
  ℕ, ◌≡◌, refl, ◌⊎◌, inl, inr, Bool, true, not, ◌&&◌, String, str_eq, Option, none, some, List, [],
  ◌∷◌, arith, ◌is◌, ◌==◌, ==_iff, find_row, update_rows, Bool-cases, Option-cases, is_empty, subst,
  sym, ap, ◌∙◌,
}
use diddi_pay_backend.Payments.Errors.{Result, ok, err, invalid_state_transition}
use diddi_pay_backend.Payments.Status.{PaymentIntentStatus, intent_enum}
use diddi_pay_backend.Payments.Entities.{PaymentIntent, PaymentAttempt}
use diddi_pay_backend.Payments.Payload.{provider_event}
use diddi_pay_backend.Payments.Database.{
  Database, ProviderEventRecord, EventStatus, provider_key, processed,
}
use diddi_pay_backend.Payments.Session.{Session, Action, continue, commit, pure, when, ◌>>◌}
use diddi_pay_backend.Payments.Accounting.{record_payment_success}
use diddi_pay_backend.Payments.Accounting.Frame.{record_payment_success-KeepsPayments}
use diddi_pay_backend.Payments.Ports.{ProviderEvent}
use diddi_pay_backend.Payments.Repositories.Intents
use diddi_pay_backend.Payments.Repositories.Attempts
use diddi_pay_backend.Payments.Repositories.Events
use diddi_pay_backend.Payments.Webhooks.{
  WebhookOutcome, failed_event, processed_event, outcome, is_duplicate, close, record_acceptance,
  accept, settle, confirm, is_success, matches_money, for_intent, for_attempt, for_reference,
  is_settled, fee_or_zero,
}

find_row-update :
    {A : Type 0} (p q : A → Bool) (f : A → A) (xs : List A) (a : A)
    → ((x : A) → p (f x) ≡ p x)
    → find_row p xs ≡ some a
    → q a ≡ true
    → find_row p (update_rows q f xs) ≡ some (f a)
find_row-update p q f [] a h e k = ground arith
find_row-update p q f (x ∷ xs) a h e k = ground (arith, h x, find_row-update p q f xs a h)

save_attempt-events :
    (attempt : PaymentAttempt) (s : Session) → (Attempts.save attempt s).1.db.events ≡ s.db.events
unfolding Attempts.save
save_attempt-events attempt s = elim (Option-cases (Attempts.get attempt.id s.db)) [
  | inl absent ↦ rw absent refl
  | inr (row, e) ↦ rw e refl
]

save_intent-events :
    (intent : PaymentIntent) (s : Session) → (Intents.save intent s).1.db.events ≡ s.db.events
unfolding Intents.save
save_intent-events intent s = elim (Option-cases (Intents.get intent.id s.db)) [
  | inl absent ↦ rw absent refl
  | inr (row, e) ↦ rw e refl
]

module _ (name : String) (event : ProviderEvent) where
  abbrev pub key_of : Database → Option ProviderEventRecord
  key_of db = Events.get name (provider_key event.event_key) db

  key_of_same : (d d' : Database) → d.events ≡ d'.events → key_of d ≡ key_of d'
  unfolding Events.get
  key_of_same d d' e =
      ap
        (find_row (λ r.
          str_eq r.processor name && Events.key_eq r.event_key (provider_key event.event_key)))
        e

  -- Unless it failed, the event is settled in what is committed.
  abbrev pub Settles : Result WebhookOutcome × Session → Type 0
  Settles (ok o, s') = (o.status ≡ failed_event) ⊎ (is_duplicate (key_of s'.committed) ≡ true)
  Settles (err e, s') = Unit

  abbrev MarkFound : ProviderEventRecord → EventStatus → Result (Unit {0}) × Session → Type 0
  MarkFound row status (ok u, s') =
      (r : ProviderEventRecord) × (key_of s'.db ≡ some r) × (r.status ≡ status)
  MarkFound row status (err e, s') = Unit

  mark-MarkFound :
      (row : ProviderEventRecord) (status : EventStatus) (attempt_id : Option ℕ)
      (message : Option String) (s : Session)
      → key_of s.db ≡ some row
      → MarkFound row status (Events.mark row status attempt_id message s)
  unfolding Events.mark Events.get
  mark-MarkFound row status attempt_id message s h = (
    Events.marked status s.clock attempt_id message row,
    find_row-update
        (λ r. str_eq r.processor name && Events.key_eq r.event_key (provider_key event.event_key))
        (λ r. r.id == row.id) (Events.marked status s.clock attempt_id message) s.db.events row
        (λ x. refl) h ((==_iff row.id row.id).1 refl),
    refl,
  )

  close-Settles :
      (row : ProviderEventRecord) (status : EventStatus) (attempt_id : Option ℕ)
      (message : Option String) (result : WebhookOutcome) (s : Session)
      → key_of s.db ≡ some row
      → (result.status ≡ failed_event) ⊎ (is_settled status ≡ true)
      → Settles (close row status attempt_id message result s)
  close-Settles row status attempt_id message result s h k =
      go (Events.mark row status attempt_id message s)
        (mark-MarkFound row status attempt_id message s h)
    where
      go :
          (o : Result (Unit {0}) × Session)
          → MarkFound row status o
          → Settles (continue o.0 (λ _. commit >> pure result) o.1)
      go (ok u, s') (r, e, g) = elim k [
        | inl failed' ↦ inl failed'
        | inr settled ↦ inr (rw e (subst (λ z. is_settled z ≡ true) (sym g) settled))
      ]
      go (err e, s') g = tt

  module _ (has_outbox has_accounting : Bool) where
    noted : PaymentAttempt → PaymentAttempt
    noted attempt = record attempt { provider_status = event.payload_status }

    -- The writes of a success after the event is marked.
    success : Bool → PaymentIntent → PaymentAttempt → Action (Unit {0})
    success was intent attempt = when (is_success event.status && not was) (
        record_payment_success has_outbox has_accounting intent (noted attempt)
          (provider_event event.event_key) (fee_or_zero event.fee))

    abbrev HasSettled : Result (Unit {0}) × Session → Type 0
    HasSettled (ok u, s') = is_duplicate (key_of s'.db) ≡ true
    HasSettled (err e, s') = Unit

    success-HasSettled :
        (was : Bool) (intent : PaymentIntent) (attempt : PaymentAttempt) (s : Session)
        → is_duplicate (key_of s.db) ≡ true
        → HasSettled (success was intent attempt s)
    unfolding success
    success-HasSettled was intent attempt s h =
        elim (Bool-cases (is_success event.status && not was)) [
          | inr quiet ↦ rw quiet h
          | inl loud ↦ rw loud (
              kept _
                (record_payment_success-KeepsPayments has_outbox has_accounting intent
                  (noted attempt) (provider_event event.event_key) (fee_or_zero event.fee)
                  s).1.events)
        ]
      where
        kept : (o : Result (Unit {0}) × Session) → o.1.db.events ≡ s.db.events → HasSettled o
        kept (ok u, s') e = rw (key_of_same s'.db s.db e) h
        kept (err x, s') e = tt

    marked-HasSettled :
        (row : ProviderEventRecord) (was : Bool) (intent : PaymentIntent) (attempt : PaymentAttempt)
        (s : Session)
        → key_of s.db ≡ some row
        → HasSettled
            ((Events.mark row processed (some attempt.id) none >> success was intent attempt) s)
    marked-HasSettled row was intent attempt s h =
        go (Events.mark row processed (some attempt.id) none s)
          (mark-MarkFound row processed (some attempt.id) none s h)
      where
        go :
            (o : Result (Unit {0}) × Session)
            → MarkFound row processed o
            → HasSettled (continue o.0 (λ _. success was intent attempt) o.1)
        go (ok u, s') (r, e, g) =
            success-HasSettled was intent attempt s'
              (rw e (subst (λ z. is_settled z ≡ true) (sym g) refl))
        go (err x, s') g = tt

    saved-HasSettled :
        (row : ProviderEventRecord) (was : Bool) (intent : PaymentIntent) (attempt : PaymentAttempt)
        (s : Session)
        → key_of s.db ≡ some row
        → HasSettled (record_acceptance has_outbox has_accounting event row was intent attempt s)
    unfolding record_acceptance success noted
    saved-HasSettled row was intent attempt s h =
        first (Attempts.save (noted attempt) s) (save_attempt-events (noted attempt) s)
      where
        second :
            (o : Result (Unit {0}) × Session)
            → o.1.db.events ≡ s.db.events
            → HasSettled (
                continue o.0
                  (λ _.
                    Events.mark row processed (some attempt.id) none >> success was intent attempt)
                  o.1)
        second (ok u, s') e =
            marked-HasSettled row was intent attempt s' (key_of_same s'.db s.db e ∙ h)
        second (err x, s') e = tt

        first :
            (o : Result (Unit {0}) × Session)
            → o.1.db.events ≡ s.db.events
            → HasSettled (
                continue o.0
                  (λ _.
                    Intents.save intent
                    >> (Events.mark row processed (some attempt.id) none
                        >> success was intent attempt))
                  o.1)
        first (ok u, s') e = second (Intents.save intent s') (save_intent-events intent s' ∙ e)
        first (err x, s') e = tt

    accept-Settles :
        (row : ProviderEventRecord) (was : Bool) (intent : PaymentIntent) (attempt : PaymentAttempt)
        (s : Session)
        → key_of s.db ≡ some row
        → Settles (accept has_outbox has_accounting event row was intent attempt s)
    unfolding accept
    accept-Settles row was intent attempt s h =
        go (record_acceptance has_outbox has_accounting event row was intent attempt s)
          (saved-HasSettled row was intent attempt s h)
      where
        go :
            (o : Result (Unit {0}) × Session)
            → HasSettled o
            → Settles (
                continue o.0
                  (λ _. commit >> pure (outcome processed_event event (some intent.id)))
                  o.1)
        go (ok u, s') e = inr e
        go (err x, s') e = tt

    settle-Settles :
        (row : ProviderEventRecord) (intent : PaymentIntent) (attempt : PaymentAttempt)
        (r : Result (PaymentIntent × PaymentAttempt)) (s : Session)
        → key_of s.db ≡ some row
        → Settles (settle has_outbox has_accounting event row intent attempt r s)
    settle-Settles row intent attempt (ok (i, a)) s h =
        accept-Settles row (intent.status is PaymentIntentStatus.succeeded) i a s h
    settle-Settles row intent attempt (err (invalid_state_transition m)) s h =
        close-Settles row _ _ _ _ s h (inl refl)
    settle-Settles row intent attempt (err _) s h = tt

    confirm-Settles :
        (row : ProviderEventRecord) (intent : PaymentIntent) (attempt : PaymentAttempt)
        (s : Session)
        → key_of s.db ≡ some row
        → Settles (confirm has_outbox has_accounting event row intent attempt s)
    unfolding confirm
    confirm-Settles row intent attempt s h =
        elim (Bool-cases (
          is_success event.status
          && not (matches_money event.amount event.currency attempt.money))) [
            | inl wrong ↦ rw wrong (close-Settles row _ _ _ _ s h (inl refl))
            | inr right ↦ rw right (settle-Settles row intent attempt _ s h)
          ]

    pub for_reference-Settles :
        (row : ProviderEventRecord) (s : Session)
        → key_of s.db ≡ some row
        → Settles
            (for_reference has_outbox has_accounting name event row event.provider_reference s)
    for_reference-Settles row s h = reference event.provider_reference
      where
        payment :
            (attempt : PaymentAttempt) (i : Option PaymentIntent)
            → Settles (for_intent has_outbox has_accounting event row attempt i s)
        payment attempt none = close-Settles row _ _ _ _ s h (inl refl)
        payment attempt (some intent) = confirm-Settles row intent attempt s h

        attempted :
            (a : Option PaymentAttempt)
            → Settles (for_attempt has_outbox has_accounting event row a s)
        attempted none = close-Settles row _ _ _ _ s h (inr refl)
        attempted (some attempt) = payment attempt (Intents.get attempt.payment_intent_id s.db)

        reference :
            (o : Option String)
            → Settles (for_reference has_outbox has_accounting name event row o s)
        reference none = close-Settles row _ _ _ _ s h (inr refl)
        reference (some r) = elim (Bool-cases (is_empty r)) [
          | inl blank ↦ rw blank (close-Settles row _ _ _ _ s h (inr refl))
          | inr given ↦ rw given (attempted (Attempts.get_by_provider_reference name r s.db))
        ]
