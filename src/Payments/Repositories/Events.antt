-- ===== src/Payments/Repositories/Events.antt =====
-- `ProviderEventRepository` of payfund_app/modules/payments/infra/repositories.py: the inbox.
use diddi_pay_backend.Prelude.{
  ℕ, ◌++◌, Bool, false, ◌&&◌, String, str_eq, Option, none, some, [], ◌∷◌, ◌==◌, find_row,
  update_rows,
}
use diddi_pay_backend.Payments.Payload.{Fields}
use diddi_pay_backend.Payments.Database.{
  Database, ProviderEventRecord, EventKey, EventStatus, provider_key, verification_key, received,
}
use diddi_pay_backend.Payments.Session.{Action, ◌>>=◌, ◌>>◌, pure, modify, fresh_id, utc_now}

abbrev pub key_eq : EventKey → EventKey → Bool
key_eq (provider_key a) (provider_key b) = str_eq a b
key_eq (verification_key i t) (verification_key j u) = i == j && t == u
key_eq _ _ = false

unfoldable pub get : String → EventKey → Database → Option ProviderEventRecord
get processor key db =
    find_row (λ row. str_eq row.processor processor && key_eq row.event_key key) db.events

unfoldable pub add : String → EventKey → String → String → Fields → Action ProviderEventRecord
add processor key event_type payload_hash payload = do
  id ← fresh_id
  let row : ProviderEventRecord = record {
    id = id;
    processor = processor;
    event_key = key;
    event_type = event_type;
    payload_hash = payload_hash;
    payload = payload;
    status = received;
    payment_attempt_id = none;
    error_message = none;
    processed_at = none;
  }
  modify (λ db. record db { events = db.events ++ row ∷ [] })
  pure row

abbrev stamp : EventStatus → ℕ → Option ℕ → Option ℕ
stamp received now old = old
stamp _ now old = some now

-- What `mark` writes into the row.
abbrev pub marked :
    EventStatus → ℕ → Option ℕ → Option String → ProviderEventRecord → ProviderEventRecord
marked status now attempt_id message r = record r {
  status = status;
  payment_attempt_id = attempt_id;
  error_message = message;
  processed_at = stamp status now r.processed_at;
}

unfoldable pub mark :
    ProviderEventRecord → EventStatus → Option ℕ → Option String → Action (Unit {0})
mark row status attempt_id message = do
  now ← utc_now
  modify (λ db. record db {
    events = update_rows (λ r. r.id == row.id) (marked status now attempt_id message) db.events;
  })
