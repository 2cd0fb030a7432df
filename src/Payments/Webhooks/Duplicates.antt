-- ===== src/Payments/Webhooks/Duplicates.antt =====
-- A webhook that is delivered again (payfund_app/modules/payments/application/webhooks.py).
use diddi_pay_backend.Prelude.{
  ℕ, ◌≡◌, refl, inl, inr, Bool, true, ◌&&◌, String, str_eq, eq_iff, ◌≢◌, none, some, List, [], ◌∷◌,
  ◌++◌, arith, find_row, Bool-cases, Option-cases, subst,
}
use diddi_pay_backend.Payments.Errors.{ok}
use diddi_pay_backend.Payments.Status.{intent_enum}
use diddi_pay_backend.Payments.Database.{Database, ProviderEventRecord, provider_key}
use diddi_pay_backend.Payments.Session.{Session, Action, begin, pure, branch, ◌>>=◌}
use diddi_pay_backend.Payments.Ports.{ProviderEvent}
use diddi_pay_backend.Payments.Repositories.Events
use diddi_pay_backend.Payments.Webhooks.{
  WebhookOutcome, failed_event, duplicate, outcome, is_duplicate, inbox_row, handle, for_reference,
  is_settled,
}
use diddi_pay_backend.Payments.Webhooks.Settled.{Settles, key_of, for_reference-Settles}

find_row-last :
    {A : Type 0} (p : A → Bool) (xs : List A) (a : A)
    → find_row p xs ≡ none
    → p a ≡ true
    → find_row p (xs ++ a ∷ []) ≡ some a
find_row-last p [] a h k = ground arith
find_row-last p (x ∷ xs) a h k = ground (arith, find_row-last p xs a)

named_itself :
    (name key : String)
    → (str_eq name name && Events.key_eq (provider_key key) (provider_key key)) ≡ true
named_itself name key = rw ((eq_iff name name).1 refl) ((eq_iff key key).1 refl)

fresh-Settles :
    (name payload_hash : String) (event : ProviderEvent) (d : Database) (now n : ℕ)
    (next : ProviderEventRecord → Action WebhookOutcome)
    → key_of name event d ≡ none
    → ((row : ProviderEventRecord) (s : Session)
        → key_of name event s.db ≡ some row
        → Settles name event (next row s))
    → Settles name event ((inbox_row none name payload_hash event >>= next) (begin d now n))
unfolding Events.add Events.get
fresh-Settles name payload_hash event d now n next absent h =
    h _ _ (find_row-last _ d.events _ absent (named_itself name event.event_key))

handle-Settles :
    (has_outbox has_accounting : Bool) (name payload_hash : String) (event : ProviderEvent)
    (d : Database) (now n : ℕ)
    → Settles name event (handle has_outbox has_accounting name payload_hash event (begin d now n))
unfolding handle
handle-Settles has_outbox has_accounting name payload_hash event d now n =
    elim (Option-cases (key_of name event d)) [
      | inl absent ↦ rw absent (
          fresh-Settles name payload_hash event d now n _ absent
            (for_reference-Settles name event has_outbox has_accounting))
      | inr (row, e) ↦ elim (Bool-cases (is_settled row.status)) [
        | inl settled ↦ rw (e, settled) (inr (rw e settled))
        | inr open' ↦
            rw (e, open')
              (for_reference-Settles name event has_outbox has_accounting row (begin d now n) e)
      ]
    ]

-- A webhook that was answered, and not by `failed`, and is delivered again after its session has
-- been committed: the second delivery is answered `duplicate` and writes nothing, at any later
-- time.
pub handle-handle :
    (has_outbox has_accounting : Bool) (name payload_hash : String) (event : ProviderEvent)
    (d : Database) (now n : ℕ) (o : WebhookOutcome) (s : Session)
    → handle has_outbox has_accounting name payload_hash event (begin d now n) ≡ (ok o, s)
    → o.status ≢ failed_event
    → (later m : ℕ)
    → handle has_outbox has_accounting name payload_hash event (begin s.committed later m)
      ≡ (ok (outcome duplicate event none), begin s.committed later m)
unfolding handle
handle-handle has_outbox has_accounting name payload_hash event d now n o s h ok' later m = again (
    subst (Settles name event) h
      (handle-Settles has_outbox has_accounting name payload_hash event d now n))
  where
    again :
        Settles name event (ok o, s)
        → branch
            (is_duplicate (key_of name event s.committed))
            (pure (outcome duplicate event none))
            (inbox_row (key_of name event s.committed) name payload_hash event >>= λ row.
              for_reference has_outbox has_accounting name event row event.provider_reference)
            (begin s.committed later m)
          ≡ (ok (outcome duplicate event none), begin s.committed later m)
    again (inl failed') = absurd (ok' failed')
    again (inr settled) = rw settled refl
