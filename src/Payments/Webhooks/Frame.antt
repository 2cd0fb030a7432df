-- ===== src/Payments/Webhooks/Frame.antt =====
-- What a webhook that is not accepted leaves alone
-- (payfund_app/modules/payments/application/webhooks.py).
use diddi_pay_backend.Prelude.{
  ℕ, ◌≡◌, refl, Bool, not, ◌&&◌, String, Option, none, some, arith, ◌⊎◌, inl, inr, Bool-cases,
  is_empty, List, ◌is◌,
}
use diddi_pay_backend.Payments.Errors.{Result, ok, err, invalid_state_transition}
use diddi_pay_backend.Payments.Status.{PaymentIntentStatus, intent_enum}
use diddi_pay_backend.Payments.Entities.{PaymentIntent, PaymentAttempt}
use diddi_pay_backend.Payments.Database.{Database, ProviderEventRecord, EventStatus, provider_key}
use diddi_pay_backend.Payments.Session.{
  Session, Action, begin, continue, commit, pure, branch, ◌>>=◌, ◌>>◌,
}
use diddi_pay_backend.Payments.Session.Keeps.{KeepsCommitted, keeps_rules}
use diddi_pay_backend.Payments.Accounting.Frame.{record_payment_success-Keeps}
use diddi_pay_backend.Payments.Ports.{ProviderEvent}
use diddi_pay_backend.Payments.Repositories.Intents
use diddi_pay_backend.Payments.Repositories.Attempts
use diddi_pay_backend.Payments.Repositories.Events
use diddi_pay_backend.Payments.Webhooks.{
  WebhookOutcome, processed_event, duplicate, outcome, is_duplicate, inbox_row, close,
  record_acceptance, accept, settle, confirm, handle, is_success, matches_money, for_intent,
  for_attempt, for_reference,
}

-- The same payments, refunds, payouts, outbox and journals; the inbox may differ.
pub record SameMoney (d d' : Database) : Type 0 where
  pub intents : d'.intents ≡ d.intents
  pub attempts : d'.attempts ≡ d.attempts
  pub refunds : d'.refunds ≡ d.refunds
  pub outbox : d'.outbox ≡ d.outbox
  pub payouts : d'.payouts ≡ d.payouts
  pub journals : d'.journals ≡ d.journals
  pub entries : d'.entries ≡ d.entries

-- Only a processed event changes what is committed beyond the inbox.
abbrev pub Guarded : Database → Result WebhookOutcome × Session → Type 0
Guarded d (ok o, s') = (o.status ≡ processed_event) ⊎ SameMoney d s'.committed
Guarded d (err e, s') = SameMoney d s'.committed

record_acceptance-Keeps :
    (has_outbox has_accounting : Bool) (event : ProviderEvent) (row : ProviderEventRecord)
    (was : Bool) (intent : PaymentIntent) (attempt : PaymentAttempt)
    → KeepsCommitted (record_acceptance has_outbox has_accounting event row was intent attempt)
unfolding record_acceptance Attempts.save Intents.save Events.mark
record_acceptance-Keeps has_outbox has_accounting event row was intent attempt =
    search (keeps_rules, record_payment_success-Keeps)

module _ (d : Database) where
  close-Guarded :
      (row : ProviderEventRecord) (status : EventStatus) (attempt_id : Option ℕ)
      (message : Option String) (result : WebhookOutcome) (s : Session)
      → SameMoney d s.db
      → Guarded d (close row status attempt_id message result s)
  unfolding Events.mark
  close-Guarded row status attempt_id message result s h = ground arith

  module _ (has_outbox has_accounting : Bool) (event : ProviderEvent) where
    accept-Guarded :
        (row : ProviderEventRecord) (was : Bool) (intent : PaymentIntent) (attempt : PaymentAttempt)
        (s : Session)
        → SameMoney d s.committed
        → Guarded d (accept has_outbox has_accounting event row was intent attempt s)
    unfolding accept
    accept-Guarded row was intent attempt s h =
        go (record_acceptance has_outbox has_accounting event row was intent attempt s)
          ((record_acceptance-Keeps has_outbox has_accounting event row was intent attempt).at s)
      where
        go :
            (o : Result (Unit {0}) × Session)
            → o.1.committed ≡ s.committed
            → Guarded d (
                continue o.0
                  (λ _. commit >> pure (outcome processed_event event (some intent.id)))
                  o.1)
        go (ok u, s') e = inl refl
        go (err x, s') e = rw e h

    settle-Guarded :
        (row : ProviderEventRecord) (intent : PaymentIntent) (attempt : PaymentAttempt)
        (r : Result (PaymentIntent × PaymentAttempt)) (s : Session)
        → SameMoney d s.db
        → SameMoney d s.committed
        → Guarded d (settle has_outbox has_accounting event row intent attempt r s)
    unfolding Events.mark
    settle-Guarded row intent attempt (ok (i, a)) s h k =
        accept-Guarded row (intent.status is PaymentIntentStatus.succeeded) i a s k
    settle-Guarded row intent attempt (err (invalid_state_transition m)) s h k = ground arith
    settle-Guarded row intent attempt (err _) s h k = k

    confirm-Guarded :
        (row : ProviderEventRecord) (intent : PaymentIntent) (attempt : PaymentAttempt)
        (s : Session)
        → SameMoney d s.db
        → SameMoney d s.committed
        → Guarded d (confirm has_outbox has_accounting event row intent attempt s)
    unfolding confirm
    confirm-Guarded row intent attempt s h k =
        elim (Bool-cases (
          is_success event.status
          && not (matches_money event.amount event.currency attempt.money))) [
            | inl wrong ↦ rw wrong (close-Guarded row _ _ _ _ s h)
            | inr right ↦ rw right (settle-Guarded row intent attempt _ s h k)
          ]

    for_reference-Guarded :
        (name : String) (row : ProviderEventRecord) (s : Session)
        → SameMoney d s.db
        → SameMoney d s.committed
        → Guarded d
            (for_reference has_outbox has_accounting name event row event.provider_reference s)
    for_reference-Guarded name row s h k = reference event.provider_reference
      where
        payment :
            (attempt : PaymentAttempt) (i : Option PaymentIntent)
            → Guarded d (for_intent has_outbox has_accounting event row attempt i s)
        payment attempt none = close-Guarded row _ _ _ _ s h
        payment attempt (some intent) = confirm-Guarded row intent attempt s h k

        attempted :
            (a : Option PaymentAttempt)
            → Guarded d (for_attempt has_outbox has_accounting event row a s)
        attempted none = close-Guarded row _ _ _ _ s h
        attempted (some attempt) = payment attempt (Intents.get attempt.payment_intent_id s.db)

        reference :
            (o : Option String)
            → Guarded d (for_reference has_outbox has_accounting name event row o s)
        reference none = close-Guarded row _ _ _ _ s h
        reference (some r) = elim (Bool-cases (is_empty r)) [
          | inl blank ↦ rw blank (close-Guarded row _ _ _ _ s h)
          | inr given ↦ rw given (attempted (Attempts.get_by_provider_reference name r s.db))
        ]

SameMoney-refl : (d : Database) → SameMoney d d
SameMoney-refl d = record {
  intents = refl;
  attempts = refl;
  refunds = refl;
  outbox = refl;
  payouts = refl;
  journals = refl;
  entries = refl;
}

-- Writing and committing a new inbox row changes no money.
fresh-Guarded :
    (name payload_hash : String) (event : ProviderEvent) (d : Database) (now n : ℕ)
    (next : ProviderEventRecord → Action WebhookOutcome)
    → ((row : ProviderEventRecord) (s : Session)
        → SameMoney d s.db
        → SameMoney d s.committed
        → Guarded d (next row s))
    → Guarded d ((inbox_row none name payload_hash event >>= next) (begin d now n))
unfolding Events.add
fresh-Guarded name payload_hash event d now n next h = h _ _ same same
  where
    same : {events : List ProviderEventRecord} → SameMoney d (record d { events = events })
    same = record {
      intents = refl;
      attempts = refl;
      refunds = refl;
      outbox = refl;
      payouts = refl;
      journals = refl;
      entries = refl;
    }

-- Whatever a provider's event says, and whichever of the two collaborators are wired: a webhook
-- that is not answered by `processed` (a duplicate, an unknown or missing reference, a wrong
-- amount or currency, a refused transition, an exception) leaves committed the payments, attempts,
-- refunds, payouts, outbox and journals that were there.
pub handle-Guarded :
    (has_outbox has_accounting : Bool) (name payload_hash : String) (event : ProviderEvent)
    (d : Database) (now n : ℕ)
    → Guarded d (handle has_outbox has_accounting name payload_hash event (begin d now n))
unfolding handle
handle-Guarded has_outbox has_accounting name payload_hash event d now n =
    known (Events.get name (provider_key event.event_key) d)
  where
    fresh :
        (o : Option ProviderEventRecord)
        → Guarded d (
            (inbox_row o name payload_hash event >>= λ row.
            for_reference has_outbox has_accounting name event row event.provider_reference)
              (begin d now n))
    fresh none =
        fresh-Guarded name payload_hash event d now n _
          (for_reference-Guarded d has_outbox has_accounting event name)
    fresh (some row) =
        for_reference-Guarded d has_outbox has_accounting event name row (begin d now n)
          (SameMoney-refl d) (SameMoney-refl d)

    known :
        (o : Option ProviderEventRecord)
        → Guarded d (
            branch
              (is_duplicate o)
              (pure (outcome duplicate event none))
              (inbox_row o name payload_hash event >>= λ row.
                for_reference has_outbox has_accounting name event row event.provider_reference)
              (begin d now n))
    known o = elim (Bool-cases (is_duplicate o)) [
      | inl old ↦ rw old (inr (SameMoney-refl d))
      | inr new ↦ rw new (fresh o)
    ]
