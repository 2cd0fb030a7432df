-- ===== src/Payments/Repositories/Payouts.antt =====
-- `PayoutRepository` of payfund_app/modules/payments/infra/repositories.py.
use diddi_pay_backend.Prelude.{
  ℕ, ◌++◌, Bool, true, false, ◌&&◌, String, str_eq, Option, none, some, List, [], ◌∷◌, leb, ◌==◌,
  ◌is_in◌, take, find_row, select_rows, update_rows, any_row, get_last?, sort_by,
}
use diddi_pay_backend.Payments.Status.{PayoutStatus, payout_enum}
use diddi_pay_backend.Payments.Errors.{err, lookup_error, persistence_conflict}
use diddi_pay_backend.Payments.Entities.{Payout}
use diddi_pay_backend.Payments.Database.{Database}
use diddi_pay_backend.Payments.Session.{Action, ◌>>=◌, gets, modify, or_raise, rollback}

abbrev has_key : String → String → Payout → Bool
has_key client_id key row = str_eq row.client_id client_id && str_eq row.idempotency_key key

unfoldable pub get_by_idempotency : String → String → Database → Option Payout
get_by_idempotency client_id key db = find_row (has_key client_id key) db.payouts

-- A second row with the client's key rolls the session back and is a `PersistenceConflict`.
abbrev insert_unless : Bool → Payout → Action (Unit {0})
insert_unless true payout s = (err persistence_conflict, rollback s)
insert_unless false payout s = modify (λ db. record db { payouts = db.payouts ++ payout ∷ [] }) s

unfoldable pub add : Payout → Action (Unit {0})
add payout = do
  taken ← gets (λ db. any_row (has_key payout.client_id payout.idempotency_key) db.payouts)
  insert_unless taken payout

unfoldable pub get : ℕ → Database → Option Payout
get payout_id db = find_row (λ row. row.id == payout_id) db.payouts

-- The newest one.
unfoldable pub get_by_business_reference : String → String → Database → Option Payout
get_by_business_reference client_id reference db = get_last? (
    select_rows (λ row. str_eq row.client_id client_id && str_eq row.business_reference reference)
      db.payouts)

abbrev is_given : Option String → Bool
is_given none = false
is_given (some _) = true

unfoldable pub pending_for_reconciliation : ℕ → ℕ → Database → List Payout
pending_for_reconciliation older_than limit db = take limit (
    sort_by (λ row. row.updated_at)
      (select_rows
        (λ row.
          row.status is_in (PayoutStatus.pending ∷ PayoutStatus.processing ∷ [])
          && is_given row.provider_reference
          && leb row.updated_at older_than)
        db.payouts))

abbrev pub saved : Payout → Payout → Payout
saved payout row = record row {
  status = payout.status;
  provider_reference = payout.provider_reference;
  provider_status = payout.provider_status;
  failure_code = payout.failure_code;
  failure_message = payout.failure_message;
  updated_at = payout.updated_at;
}

unfoldable pub save : Payout → Action (Unit {0})
unfolding get
save payout = do
  row ← gets (get payout.id)
  found ← or_raise row lookup_error
  modify
      (λ db. record db { payouts = update_rows (λ r. r.id == payout.id) (saved payout) db.payouts })
