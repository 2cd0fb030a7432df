-- ===== src/Payments/Repositories/Refunds.antt =====
-- `RefundRepository` of payfund_app/modules/payments/infra/repositories.py.
use diddi_pay_backend.Prelude.{
  ℕ, ◌++◌, Bool, ◌&&◌, String, str_eq, Option, [], ◌∷◌, ◌==◌, ◌is_in◌, if◌then◌else◌, find_row,
  update_rows, any_row, sum_rows,
}
use diddi_pay_backend.Payments.Status.{RefundStatus, refund_enum}
use diddi_pay_backend.Payments.Errors.{integrity_error, lookup_error}
use diddi_pay_backend.Payments.Entities.{Refund}
use diddi_pay_backend.Payments.Database.{Database, RefundRecord}
use diddi_pay_backend.Payments.Session.{Action, ◌>>=◌, ◌>>◌, gets, modify, or_raise, raise_if}

abbrev has_key : String → String → RefundRecord → Bool
has_key client_id key row = str_eq row.client_id client_id && str_eq row.refund.idempotency_key key

unfoldable pub get_by_idempotency : String → String → Database → Option RefundRecord
get_by_idempotency client_id key db = find_row (has_key client_id key) db.refunds

unfoldable pub add : Refund → String → String → Action (Unit {0})
add refund client_id processor = do
  taken ← gets (λ db. any_row (has_key client_id refund.idempotency_key) db.refunds)
  raise_if taken integrity_error
  modify (λ db. record db {
    refunds =
        db.refunds ++ record { refund = refund; client_id = client_id; processor = processor } ∷ [];
  })

-- What a row adds to the active total of an intent: its amount, unless it failed.
abbrev pub active_amount : ℕ → RefundRecord → ℕ
active_amount intent_id row =
    if row.refund.payment_intent_id == intent_id
      && row.refund.status
        is_in (RefundStatus.pending ∷ RefundStatus.processing ∷ RefundStatus.succeeded ∷ [])
    then row.refund.money.amount
    else 0

unfoldable pub total_active_for_intent : ℕ → Database → ℕ
total_active_for_intent intent_id db = sum_rows (active_amount intent_id) db.refunds

abbrev has_id : ℕ → RefundRecord → Bool
has_id refund_id row = row.refund.id == refund_id

abbrev pub saved : Refund → RefundRecord → RefundRecord
saved refund row = record row {
  refund = record row.refund {
    status = refund.status;
    provider_reference = refund.provider_reference;
    provider_status = refund.provider_status;
    updated_at = refund.updated_at;
  };
}

unfoldable pub save : Refund → Action (Unit {0})
save refund = do
  row ← gets (λ db. find_row (has_id refund.id) db.refunds)
  found ← or_raise row lookup_error
  modify (λ db. record db { refunds = update_rows (has_id refund.id) (saved refund) db.refunds })
