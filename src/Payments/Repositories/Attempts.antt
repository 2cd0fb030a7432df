-- ===== src/Payments/Repositories/Attempts.antt =====
-- `PaymentAttemptRepository` of payfund_app/modules/payments/infra/repositories.py.
use diddi_pay_backend.Prelude.{
  ℕ, ◌+◌, ◌++◌, Bool, true, false, ◌&&◌, String, str_eq, Option, none, some, List, [], ◌∷◌, leb,
  ◌==◌, ◌is_in◌, take, find_row, select_rows, update_rows, get_last?, sort_by,
}
use diddi_pay_backend.Payments.Status.{AttemptStatus, attempt_enum}
use diddi_pay_backend.Payments.Errors.{lookup_error}
use diddi_pay_backend.Payments.Entities.{PaymentAttempt}
use diddi_pay_backend.Payments.Database.{Database}
use diddi_pay_backend.Payments.Session.{Action, ◌>>=◌, gets, modify, or_raise}

unfoldable pub add : PaymentAttempt → Action (Unit {0})
add attempt = modify (λ db. record db { attempts = db.attempts ++ attempt ∷ [] })

unfoldable pub get : ℕ → Database → Option PaymentAttempt
get attempt_id db = find_row (λ row. row.id == attempt_id) db.attempts

abbrev pub has_reference : String → Option String → Bool
has_reference reference none = false
has_reference reference (some r) = str_eq r reference

unfoldable pub get_by_provider_reference : String → String → Database → Option PaymentAttempt
get_by_provider_reference processor reference db =
    find_row
      (λ row. str_eq row.processor processor && has_reference reference row.provider_reference)
      db.attempts

unfoldable pub list_for_intent : ℕ → Database → List PaymentAttempt
list_for_intent intent_id db =
    sort_by (λ row. row.attempt_number)
      (select_rows (λ row. row.payment_intent_id == intent_id) db.attempts)

abbrev number_after : Option PaymentAttempt → ℕ
number_after none = 1
number_after (some last) = last.attempt_number + 1

unfoldable pub next_attempt_number : ℕ → Database → ℕ
unfolding list_for_intent
next_attempt_number intent_id db = number_after (get_last? (list_for_intent intent_id db))

abbrev is_given : Option String → Bool
is_given none = false
is_given (some _) = true

-- Attempts that wait for the provider, the least recently updated first.
unfoldable pub pending_for_reconciliation : ℕ → ℕ → Database → List PaymentAttempt
pending_for_reconciliation older_than limit db = take limit (
    sort_by (λ row. row.updated_at)
      (select_rows
        (λ row.
          row.status is_in (
            AttemptStatus.requires_action ∷ AttemptStatus.processing ∷ AttemptStatus.unknown ∷ [])
          && is_given row.provider_reference
          && leb row.updated_at older_than)
        db.attempts))

abbrev pub saved : PaymentAttempt → PaymentAttempt → PaymentAttempt
saved attempt row = record row {
  status = attempt.status;
  provider_reference = attempt.provider_reference;
  provider_status = attempt.provider_status;
  action = attempt.action;
  failure_code = attempt.failure_code;
  failure_message = attempt.failure_message;
  updated_at = attempt.updated_at;
}

unfoldable pub save : PaymentAttempt → Action (Unit {0})
unfolding get
save attempt = do
  row ← gets (get attempt.id)
  found ← or_raise row lookup_error
  modify (λ db. record db {
    attempts = update_rows (λ r. r.id == attempt.id) (saved attempt) db.attempts;
  })
