-- ===== src/Fund/Collections/Events.antt =====
-- payfund_app/modules/fund/application/payment_use_cases.py: the events of payments.
use diddi_pay_backend.Prelude.{
  ℕ, true, false, not, ◌||◌, String, str_eq, mem_text, is_empty, Option, none, some,
}
use diddi_pay_backend.Prelude.Int.{ℤ}
use diddi_pay_backend.Prelude.Actions.{
  pure, raise, gets, branch, raise_if, or_raise, request, ◌>>=◌, ◌>>◌,
}
use diddi_pay_backend.Fund.Status.{campaign_enum}
use diddi_pay_backend.Fund.Tables.{
  campaign_not_found, value_error, integrity_error, FundPaymentOrder,
}
use diddi_pay_backend.Fund.Repositories.{Fund, get_campaign, save_campaign, create_investment}
use diddi_pay_backend.Fund.Repositories.Orders.{
  by_payment_intent, save_order, add_once, order_statuses,
}
use diddi_pay_backend.Fund.Campaigns.{raised_by}
use diddi_pay_backend.Fund.Collections.{is_amount, is_text}

-- The fields of an event's data that `apply_event` reads.
pub record EventData : Type 0 where
  pub payment_intent_id : ℕ
  pub business_reference : Option String
  pub amount : ℤ
  pub currency : Option String
  pub status : Option String

pub data EventOutcome : Type 0 where
  duplicate processed : EventOutcome

-- `str(data.get("status") or order.status)`
abbrev status_or : Option String → String → String
status_or none status = status
status_or (some text) status = elim (is_empty text) [ true ↦ status | false ↦ text ]

module _ {W : Type 0} where
  -- `order.status = ...`; the table allows six statuses.
  unfoldable pub set_order_status : FundPaymentOrder → String → Fund W (Unit {0})
  set_order_status order status = do
    raise_if (not (mem_text status order_statuses)) integrity_error
    save_order order.id (λ row. record row { status = status })

  -- A payment that succeeded, on an order that has not.
  unfoldable pub settle_investment : FundPaymentOrder → ℕ → Fund W (Unit {0})
  settle_investment order campaign_id = do
    found ← gets (get_campaign campaign_id)
    campaign ← or_raise found campaign_not_found
    create_investment campaign.id order.payer_user_id order.amount none
        (some order.payment_intent_id)
    save_campaign campaign.id (raised_by order.amount)
    now ← gets (λ s. s.clock)
    save_order order.id (λ row. record row { status = "succeeded"; completed_at = some now })

  abbrev pub with_campaign : FundPaymentOrder → Option ℕ → Fund W (Unit {0})
  with_campaign order none = raise campaign_not_found
  with_campaign order (some campaign_id) = settle_investment order campaign_id

  -- The part of `apply_event` on an order that matches the event.
  unfoldable pub apply_to_order : FundPaymentOrder → String → EventData → Fund W EventOutcome
  apply_to_order order event_type event =
      branch (not (str_eq event_type "payment.succeeded"))
        (set_order_status order (status_or event.status order.status))
        (branch (str_eq order.status "succeeded") (pure tt) (with_campaign order order.campaign_id))
      >> pure processed

  unfoldable pub first_event : String → EventData → Fund W EventOutcome
  first_event event_type event = do
    found ← gets (by_payment_intent event.payment_intent_id)
    order ← or_raise found (value_error "PAYMENT_ORDER_NOT_FOUND")
    raise_if (not (is_text order.business_reference event.business_reference))
        (value_error "PAYMENT_REFERENCE_MISMATCH")
    raise_if
        (not (is_amount event.amount order.amount) || not (is_text order.currency event.currency))
        (value_error "PAYMENT_AMOUNT_MISMATCH")
    apply_to_order order event_type event

  -- `apply_event`, which rolls its session back when it raises
  unfoldable pub apply_event : ℕ → String → EventData → Fund W EventOutcome
  apply_event event_id event_type event =
      request
        do is_new ← add_once event_id; branch is_new (first_event event_type event) (pure duplicate)
