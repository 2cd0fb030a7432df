-- ===== src/Payments/Repositories/Intents.antt =====
-- `PaymentIntentRepository` of payfund_app/modules/payments/infra/repositories.py.
use diddi_pay_backend.Prelude.{
  ℕ, ◌++◌, Bool, ◌&&◌, String, str_eq, Option, List, [], ◌∷◌, reverse, ◌==◌, take, find_row,
  select_rows, update_rows, any_row,
}
use diddi_pay_backend.Payments.Errors.{integrity_error, lookup_error}
use diddi_pay_backend.Payments.Entities.{PaymentIntent}
use diddi_pay_backend.Payments.Database.{Database}
use diddi_pay_backend.Payments.Session.{Action, ◌>>=◌, ◌>>◌, gets, modify, or_raise, raise_if}

abbrev has_key : String → String → PaymentIntent → Bool
has_key client_id key row = str_eq row.client_id client_id && str_eq row.idempotency_key key

unfoldable pub get_by_idempotency : String → String → Database → Option PaymentIntent
get_by_idempotency client_id key db = find_row (has_key client_id key) db.intents

-- The flush refuses a second row with the client's key.
unfoldable pub add : PaymentIntent → Action (Unit {0})
add intent = do
  taken ← gets (λ db. any_row (has_key intent.client_id intent.idempotency_key) db.intents)
  raise_if taken integrity_error
  modify (λ db. record db { intents = db.intents ++ intent ∷ [] })

unfoldable pub get : ℕ → Database → Option PaymentIntent
get intent_id db = find_row (λ row. row.id == intent_id) db.intents

-- Newest first, and at most `limit`.
unfoldable pub list_for_client : String → ℕ → Database → List PaymentIntent
list_for_client client_id limit db =
    take limit (reverse (select_rows (λ row. str_eq row.client_id client_id) db.intents))

-- The columns that `save` writes.
abbrev pub saved : PaymentIntent → PaymentIntent → PaymentIntent
saved intent row = record row {
  status = intent.status;
  refunded_amount = intent.refunded_amount;
  updated_at = intent.updated_at;
}

unfoldable pub save : PaymentIntent → Action (Unit {0})
unfolding get
save intent = do
  row ← gets (get intent.id)
  found ← or_raise row lookup_error
  modify
      (λ db. record db { intents = update_rows (λ r. r.id == intent.id) (saved intent) db.intents })
