-- ===== src/Fund/Raised/Payments.antt =====
-- The payments of payfund_app/modules/fund keep what each campaign has raised equal to its investments.
use diddi_pay_backend.Prelude.{ℕ, String, Option, none, some, Bool, Bool-cases, inl, inr}
use diddi_pay_backend.Prelude.Actions.{Result, ok, err, pure, branch}
use diddi_pay_backend.Prelude.Actions.Rules.{
  Maintains, After, maintains_rules, Maintains-bind, request-Maintains,
}
use diddi_pay_backend.Fund.Tables.{FundError, Campaign, FundPaymentOrder, Tables}
use diddi_pay_backend.Fund.Ports.{PaymentOrchestratorPort, CollectionRequest}
use diddi_pay_backend.Fund.Repositories.Orders.{create_order, add_once}
use diddi_pay_backend.Fund.Collections.{
  InvestmentCommand, collection_of, known_investment, check_remaining, create_collection,
  is_integrity_error, concurrent_order, settle_order, place_order, new_investment, with_existing,
  start_investment,
}
use diddi_pay_backend.Fund.Collections.Events.{
  EventData, duplicate, apply_event, set_order_status, settle_investment, with_campaign,
  apply_to_order, first_event,
}
use diddi_pay_backend.Fund.Raised.{IsRaised}
use diddi_pay_backend.Fund.Raised.Campaigns.{invest-Maintains}
use diddi_pay_backend.Fund.Raised.Others.{
  save_order-Maintains, create_order-Maintains, add_once-Maintains,
}

module _ {W : Type 0} where
  set_order_status-Maintains :
      (order : FundPaymentOrder) (status : String)
      → Maintains (IsRaised {W = W}) (set_order_status order status)
  unfolding set_order_status
  set_order_status-Maintains order status = search (maintains_rules, save_order-Maintains) depth 6

  settle_investment-Maintains :
      (order : FundPaymentOrder) (campaign_id : ℕ)
      → Maintains (IsRaised {W = W}) (settle_investment order campaign_id)
  unfolding settle_investment
  settle_investment-Maintains order campaign_id =
      search (invest-Maintains, maintains_rules, save_order-Maintains) depth 15

  with_campaign-Maintains :
      (order : FundPaymentOrder) (campaign : Option ℕ)
      → Maintains (IsRaised {W = W}) (with_campaign order campaign)
  with_campaign-Maintains order none = record { at = λ s h. tt }
  with_campaign-Maintains order (some id) = record {
    at = (settle_investment-Maintains order id).at;
  }

  apply_to_order-Maintains :
      (order : FundPaymentOrder) (type : String) (event : EventData)
      → Maintains (IsRaised {W = W}) (apply_to_order order type event)
  unfolding apply_to_order
  apply_to_order-Maintains order type event =
      search (maintains_rules, set_order_status-Maintains, with_campaign-Maintains) depth 12

  first_event-Maintains :
      (type : String) (event : EventData) → Maintains (IsRaised {W = W}) (first_event type event)
  unfolding first_event
  first_event-Maintains type event = search (maintains_rules, apply_to_order-Maintains) depth 12

  event-Maintains :
      (is_new : Bool) (type : String) (event : EventData)
      → Maintains (IsRaised {W = W}) (branch is_new (first_event type event) (pure duplicate))
  event-Maintains is_new type event = search (maintains_rules, first_event-Maintains) depth 6

  pub apply_event-IsRaised :
      (event_id : ℕ) (type : String) (event : EventData) (s : Tables W)
      → IsRaised s
      → IsRaised (apply_event event_id type event s).1
  unfolding apply_event
  apply_event-IsRaised event_id type event s h =
      request-Maintains _
        (Maintains-bind (add_once event_id)
          (λ is_new. branch is_new (first_event type event) (pure duplicate))
          (add_once-Maintains event_id) (λ is_new. event-Maintains is_new type event))
        s h

module _ {W : Type 0} (payments : Option PaymentOrchestratorPort) (id_text : ℕ → String) where
  concurrent_order-Maintains :
      (command : InvestmentCommand)
      → Maintains (IsRaised {W = W}) (concurrent_order payments id_text command)
  unfolding concurrent_order
  concurrent_order-Maintains command = search maintains_rules depth 8

  place_order-Maintains :
      (command : InvestmentCommand) (order : FundPaymentOrder)
      → Maintains (IsRaised {W = W}) (place_order payments id_text command order)
  unfolding place_order
  place_order-Maintains command order = record {
    at = λ s h. go s (create_order order s) h ((create_order-Maintains order).at s h);
  }
    where
      go :
          (s : Tables W) (o : Result FundError FundPaymentOrder × Tables W)
          → IsRaised s
          → After IsRaised o
          → After IsRaised (settle_order payments id_text command s o.0 o.1)
      go s (ok row, s') h k = k
      go s (err e, s') h k = elim (Bool-cases (is_integrity_error e)) [
        | inl same ↦ rw same ((concurrent_order-Maintains command).at s h)
        | inr other ↦ rw other tt
      ]

  collection_of-Maintains :
      (p : Option PaymentOrchestratorPort) (order : FundPaymentOrder)
      → Maintains (IsRaised {W = W}) (collection_of payments id_text p order)
  collection_of-Maintains none order = search maintains_rules depth 4
  collection_of-Maintains (some port) order = search maintains_rules depth 6

  known_investment-Maintains :
      (command : InvestmentCommand) (order : FundPaymentOrder)
      → Maintains (IsRaised {W = W}) (known_investment payments id_text command order)
  unfolding known_investment
  known_investment-Maintains command order =
      search (maintains_rules, collection_of-Maintains) depth 8

  check_remaining-Maintains :
      (command : InvestmentCommand) (c : Campaign)
      → Maintains (IsRaised {W = W}) (check_remaining payments id_text command c)
  unfolding check_remaining
  check_remaining-Maintains command c = search maintains_rules depth 10

  create_collection-Maintains :
      (p : Option PaymentOrchestratorPort) (r : CollectionRequest)
      → Maintains (IsRaised {W = W}) (create_collection payments id_text p r)
  create_collection-Maintains none r = search maintains_rules depth 4
  create_collection-Maintains (some port) r = search maintains_rules depth 6

  new_investment-Maintains :
      (command : InvestmentCommand)
      → Maintains (IsRaised {W = W}) (new_investment payments id_text command)
  unfolding new_investment
  new_investment-Maintains command =
      search
        (
          maintains_rules, check_remaining-Maintains, create_collection-Maintains,
          place_order-Maintains,
        )
        depth 16

  with_existing-Maintains :
      (command : InvestmentCommand) (o : Option FundPaymentOrder)
      → Maintains (IsRaised {W = W}) (with_existing payments id_text command o)
  with_existing-Maintains command none = record { at = (new_investment-Maintains command).at }
  with_existing-Maintains command (some order) = record {
    at = (known_investment-Maintains command order).at;
  }

  pub start_investment-Maintains :
      (command : InvestmentCommand)
      → Maintains (IsRaised {W = W}) (start_investment payments id_text command)
  unfolding start_investment
  start_investment-Maintains command = search (maintains_rules, with_existing-Maintains) depth 8
