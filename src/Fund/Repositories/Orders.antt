-- ===== src/Fund/Repositories/Orders.antt =====
-- payfund_app/modules/fund/infra/repositories.py: the orders of payments and the inbox of their events.
use diddi_pay_backend.Prelude.{
  ℕ, ◌+◌, ◌++◌, Bool, true, false, not, ◌&&◌, ◌||◌, String, str_eq, mem_text, Option, List, [], ◌∷◌,
  ◌==◌, find_row, update_rows,
}
use diddi_pay_backend.Prelude.Int.{pos, ltb_ℤ}
use diddi_pay_backend.Prelude.Actions.{ok, pure, raise, branch, modify}
use diddi_pay_backend.Fund.Status.{campaign_enum, loan_enum, installment_enum}
use diddi_pay_backend.Fund.Tables.{integrity_error, FundPaymentOrder, Tables}
use diddi_pay_backend.Fund.Repositories.{Fund, is_present}

abbrev pub order_statuses : List String
order_statuses =
    "requires_action" ∷ "processing" ∷ "succeeded" ∷ "failed" ∷ "cancelled" ∷ "unknown" ∷ []

abbrev pub mem_id : ℕ → List ℕ → Bool
mem_id n [] = false
mem_id n (m ∷ ms) = m == n || mem_id n ms

module _ {W : Type 0} where
  -- `FundPaymentOrderRepository`
  unfoldable pub get_order : ℕ → Tables W → Option FundPaymentOrder
  get_order id s = find_row (λ row. row.id == id) s.orders

  unfoldable pub by_idempotency : String → Tables W → Option FundPaymentOrder
  by_idempotency key s = find_row (λ row. str_eq row.idempotency_key key) s.orders

  unfoldable pub by_payment_intent : ℕ → Tables W → Option FundPaymentOrder
  by_payment_intent intent s = find_row (λ row. row.payment_intent_id == intent) s.orders

  abbrev pub is_stored_order : FundPaymentOrder → Tables W → Bool
  is_stored_order order s =
      ltb_ℤ (pos 0) order.amount
      && mem_text order.status order_statuses
      && not (is_present (by_idempotency order.idempotency_key s))
      && not (is_present (by_payment_intent order.payment_intent_id s))

  unfoldable pub create_order : FundPaymentOrder → Fund W FundPaymentOrder
  create_order order s =
      let row = record order { id = s.next_id } in
      branch (is_stored_order row s)
        (λ t. (ok row, record t { orders = t.orders ++ row ∷ []; next_id = t.next_id + 1 }))
        (raise integrity_error) s

  unfoldable pub save_order : ℕ → (FundPaymentOrder → FundPaymentOrder) → Fund W (Unit {0})
  save_order id f = modify (λ s. record s { orders = update_rows (λ row. row.id == id) f s.orders })

  -- `FundPaymentEventInboxRepository.add_once`
  unfoldable pub add_once : ℕ → Fund W Bool
  add_once event_id s =
      branch (mem_id event_id s.inbox) (pure false)
        (λ t. (ok true, record t { inbox = t.inbox ++ event_id ∷ [] })) s
