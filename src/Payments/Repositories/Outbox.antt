-- ===== src/Payments/Repositories/Outbox.antt =====
-- `PaymentOutboxRepository` of payfund_app/modules/payments/infra/repositories.py.
pub mod Retries
use diddi_pay_backend.Prelude.{
  ℕ, ◌+◌, ◌-◌, ◌^◌, ◌++◌, Bool, false, ◌||◌, String, Option, none, some, List, [], ◌∷◌,
  if◌then◌else◌, leb, ◌==◌, min, take, select_rows, update_rows, map, take_text,
}
use diddi_pay_backend.Payments.Payload.{Fields}
use diddi_pay_backend.Payments.Database.{
  PaymentOutboxRecord, OutboxStatus, pending, delivering, delivered, dead_letter,
}
use diddi_pay_backend.Payments.Session.{Action, ◌>>=◌, ◌>>◌, pure, gets, modify, fresh_id, utc_now}

unfoldable pub enqueue : String → String → ℕ → Fields → Action (Unit {0})
enqueue client_id event_type aggregate_id payload = do
  id ← fresh_id
  now ← utc_now
  modify (λ db. record db {
    outbox =
        db.outbox
        ++ record {
          id = id;
          client_id = client_id;
          event_type = event_type;
          aggregate_id = aggregate_id;
          payload = payload;
          status = pending;
          attempts = 0;
          last_error = none;
          next_attempt_at = now;
          delivered_at = none;
          locked_at = none;
          created_at = now;
        }
          ∷ [];
  })

abbrev is_locked_before : ℕ → Option ℕ → Bool
is_locked_before limit none = false
is_locked_before limit (some t) = leb t limit

-- A row is due when it waits and its time has come, or when its lease has expired.
abbrev pub is_due_in : OutboxStatus → ℕ → ℕ → PaymentOutboxRecord → Bool
is_due_in pending now lease row = leb row.next_attempt_at now
is_due_in delivering now lease row = is_locked_before (now - lease) row.locked_at
is_due_in delivered now lease row = false
is_due_in dead_letter now lease row = false

unfoldable pub is_due : ℕ → ℕ → PaymentOutboxRecord → Bool
is_due now lease row = is_due_in row.status now lease row

abbrev pub claimed : ℕ → PaymentOutboxRecord → PaymentOutboxRecord
claimed now row = record row { status = delivering; locked_at = some now }

abbrev among : ℕ → List PaymentOutboxRecord → Bool
among id [] = false
among id (row ∷ rows) = row.id == id || among id rows

-- `claim(limit, lease_seconds=...)`
unfoldable pub claim : ℕ → ℕ → Action (List PaymentOutboxRecord)
unfolding is_due
claim limit lease = do
  now ← utc_now
  rows ← gets (λ db. take limit (select_rows (is_due now lease) db.outbox))
  modify (λ db. record db { outbox = update_rows (λ r. among r.id rows) (claimed now) db.outbox })
  pure (map (claimed now) rows)

abbrev pub marked_delivered : ℕ → PaymentOutboxRecord → PaymentOutboxRecord
marked_delivered now row = record row {
  status = delivered;
  delivered_at = some now;
  locked_at = none;
  last_error = none;
}

-- `delivered(row)`
unfoldable pub mark_delivered : PaymentOutboxRecord → Action (Unit {0})
mark_delivered row = do
  now ← utc_now
  modify (λ db. record db {
    outbox = update_rows (λ r. r.id == row.id) (marked_delivered now) db.outbox;
  })

-- The seconds to the next attempt after `attempts` failures.
unfoldable pub retry_delay : ℕ → ℕ
retry_delay attempts = min 3600 (2 ^ min attempts 10)

-- What a failed delivery writes into the row.
unfoldable pub marked_failed : ℕ → ℕ → String → PaymentOutboxRecord → PaymentOutboxRecord
unfolding retry_delay
marked_failed now max_attempts message row =
    if leb max_attempts (row.attempts + 1)
    then record row {
      attempts = row.attempts + 1;
      last_error = some (take_text 255 message);
      status = dead_letter;
      locked_at = none;
    }
    else record row {
      attempts = row.attempts + 1;
      last_error = some (take_text 255 message);
      status = pending;
      next_attempt_at = now + retry_delay (row.attempts + 1);
      locked_at = none;
    }

-- `failed(row, error, max_attempts=10)`
unfoldable pub mark_failed : PaymentOutboxRecord → String → ℕ → Action (Unit {0})
unfolding marked_failed
mark_failed row message max_attempts = do
  now ← utc_now
  modify (λ db. record db {
    outbox = update_rows (λ r. r.id == row.id) (marked_failed now max_attempts message) db.outbox;
  })
