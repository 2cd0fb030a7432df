-- ===== src/Payments/Deliveries.antt =====
-- payfund_app/modules/payments/application/deliveries.py: at-least-once delivery of outbox events.
pub mod Progress
mod Tests
use diddi_pay_backend.Prelude.{
  ℕ, ◌+◌, Bool, true, false, String, Option, none, some, List, [], ◌∷◌, length,
}
use diddi_pay_backend.Payments.Errors.{Error, Result, ok, err, callback_delivery_failed}
use diddi_pay_backend.Payments.Database.{Database, PaymentOutboxRecord}
use diddi_pay_backend.Payments.Session.{Action, ◌>>=◌, ◌>>◌, pure, raise, commit}
use diddi_pay_backend.Payments.Ports.{CallbackTarget}
use diddi_pay_backend.Payments.Repositories.Outbox

pub record DeliverySummary : Type 0 where
  pub scanned : ℕ
  pub delivered : ℕ
  pub retried : ℕ
  pub unavailable : ℕ

-- The other end of a delivery: it takes the event or raises.
abbrev pub Sender : Type 0
Sender = CallbackTarget → PaymentOutboxRecord → Result (Unit {0})

-- `targets.get(row.client_id) or targets.get("*")`
abbrev pub target_of :
    (String → Option CallbackTarget) → PaymentOutboxRecord → Option CallbackTarget
target_of targets row = first (targets row.client_id)
  where
    first : Option CallbackTarget → Option CallbackTarget
    first (some target) = some target
    first none = targets "*"

-- The default of `failed`.
abbrev pub max_attempts : ℕ
max_attempts = 10

abbrev unavailable_one : DeliverySummary → DeliverySummary
unavailable_one t = record t { unavailable = t.unavailable + 1 }

abbrev retried_one : DeliverySummary → DeliverySummary
retried_one t = record t { retried = t.retried + 1 }

abbrev delivered_one : DeliverySummary → DeliverySummary
delivered_one t = record t { delivered = t.delivered + 1 }

-- The outcome of a call of the sender; any other exception ends the run.
abbrev pub settle :
    PaymentOutboxRecord → DeliverySummary → Result (Unit {0}) → Action DeliverySummary
settle row t (ok _) = do Outbox.mark_delivered row; commit; pure (delivered_one t)
settle row t (err (callback_delivery_failed message)) = do
  Outbox.mark_failed row message max_attempts
  commit
  pure (retried_one t)
settle row t (err e) = raise e

abbrev pub send_to :
    Sender → PaymentOutboxRecord → DeliverySummary → Option CallbackTarget → Action DeliverySummary
send_to send row t none = do
  Outbox.mark_failed row "callback target not configured" max_attempts
  commit
  pure (unavailable_one t)
send_to send row t (some target) = settle row t (send target row)

module _ (send : Sender) (targets : String → Option CallbackTarget) where
  -- One round of the loop.
  unfoldable pub deliver : PaymentOutboxRecord → DeliverySummary → Action DeliverySummary
  deliver row t = send_to send row t (target_of targets row)

  unfoldable pub deliver_all : List PaymentOutboxRecord → DeliverySummary → Action DeliverySummary
  unfolding deliver
  deliver_all [] t = pure t
  deliver_all (row ∷ rows) t = deliver row t >>= deliver_all rows

  -- `PaymentEventDeliveryUseCases.run`; a lease lasts 300 seconds.
  unfoldable pub run : ℕ → Action DeliverySummary
  unfolding deliver_all
  run limit = do
    rows ← Outbox.claim limit 300
    commit
    deliver_all rows (record { scanned = length rows; delivered = 0; retried = 0; unavailable = 0 })
