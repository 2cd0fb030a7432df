-- ===== src/Fund/Collections/Once.antt =====
-- An event of a payment is applied once by payfund_app/modules/fund (`apply_event`).
use diddi_pay_backend.Prelude.{
  ℕ, ◌≡◌, refl, ap, subst, true, String, Option, none, some, List, [], ◌∷◌, ◌++◌, Bool-cases, inl,
  inr, arith,
}
use diddi_pay_backend.Prelude.Int.{ℤ}
use diddi_pay_backend.Prelude.Actions.{Result, ok, err, pure, branch, request, kept, ◌>>=◌}
use diddi_pay_backend.Prelude.Actions.Rules.{Maintains, After, maintains_rules}
use diddi_pay_backend.Fund.Tables.{FundError, FundPaymentOrder, Tables, Campaign}
use diddi_pay_backend.Fund.Repositories.{create_investment, save_campaign, is_stored_investment}
use diddi_pay_backend.Fund.Repositories.Orders.{save_order, add_once, mem_id}
use diddi_pay_backend.Fund.Collections.Events.{
  EventData, EventOutcome, duplicate, set_order_status, settle_investment, with_campaign,
  apply_to_order, first_event, apply_event,
}

mem_id-append : (n : ℕ) (rows : List ℕ) → mem_id n (rows ++ n ∷ []) ≡ true
mem_id-append n [] = ground arith
mem_id-append n (m ∷ rows) = ground (arith, mem_id-append n rows)

module _ {W : Type 0} where
  -- The event is in the inbox.
  abbrev Received : ℕ → Tables W → Type 0
  Received event_id s = mem_id event_id s.inbox ≡ true

  module _ (event_id : ℕ) where
    create_investment-Received :
        (campaign_id user_id : ℕ) (amount : ℤ) (transaction intent : Option ℕ)
        → Maintains
            (Received event_id)
            (create_investment campaign_id user_id amount transaction intent)
    unfolding create_investment
    create_investment-Received campaign_id user_id amount transaction intent = record {
      at = λ s h. elim (Bool-cases (is_stored_investment campaign_id amount intent s)) [
        | inl stored ↦ rw stored h
        | inr refused ↦ rw refused tt
      ];
    }

    save_campaign-Received :
        (id : ℕ) (f : Campaign → Campaign) → Maintains (Received event_id) (save_campaign id f)
    unfolding save_campaign
    save_campaign-Received id f = record { at = λ s h. h }

    save_order-Received :
        (id : ℕ) (f : FundPaymentOrder → FundPaymentOrder)
        → Maintains (Received event_id) (save_order id f)
    unfolding save_order
    save_order-Received id f = record { at = λ s h. h }

    with_campaign-Received :
        (order : FundPaymentOrder) (campaign : Option ℕ)
        → Maintains (Received event_id) (with_campaign order campaign)
    unfolding settle_investment
    with_campaign-Received order none = record { at = λ s h. tt }
    with_campaign-Received order (some id) =
        let settles : Maintains (Received event_id) (settle_investment order id) =
          search
            (
              maintains_rules, create_investment-Received, save_campaign-Received,
              save_order-Received,
            )
            depth 15 in
        record { at = settles.at }

    first_event-Received :
        (type : String) (event : EventData) → Maintains (Received event_id) (first_event type event)
    unfolding first_event apply_to_order set_order_status
    first_event-Received type event =
        search (maintains_rules, with_campaign-Received, save_order-Received) depth 24

    -- The event is in the inbox when its first application ends.
    applied :
        (type : String) (event : EventData) (s : Tables W)
        → After (Received event_id) (
            (add_once event_id >>= λ is_new.
            branch is_new (first_event type event) (pure duplicate))
              s)
    unfolding add_once
    applied type event s = elim (Bool-cases (mem_id event_id s.inbox)) [
      | inl known ↦ rw known known
      | inr new ↦ rw new ((first_event-Received type event).at _ (mem_id-append event_id s.inbox))
    ]

  Received-stays :
      (event_id : ℕ) (type : String) (event : EventData) (s : Tables W)
      → Received event_id s
      → apply_event event_id type event s ≡ (ok duplicate, s)
  unfolding apply_event add_once request
  Received-stays event_id type event s h = rw h refl

  -- An event of a payment that was applied and is delivered again, whatever the second delivery
  -- says: it is answered as a duplicate and writes nothing.
  pub apply_event-once :
      (event_id : ℕ) (type other_type : String) (event other : EventData) (outcome : EventOutcome)
      (s s' : Tables W)
      → apply_event event_id type event s ≡ (ok outcome, s')
      → apply_event event_id other_type other s' ≡ (ok duplicate, s')
  unfolding apply_event request
  apply_event-once event_id type other_type event other outcome s s' h =
      Received-stays event_id other_type other s' (
        go
          ((add_once event_id >>= λ is_new. branch is_new (first_event type event) (pure duplicate))
            s)
          (applied event_id type event s) h)
    where
      go :
          (o : Result FundError EventOutcome × Tables W)
          → After (Received event_id) o
          → kept s o.0 o.1 ≡ (ok outcome, s')
          → Received event_id s'
      go (ok a, t) k e = subst (Received event_id) (ap (λ x. x.1) e) k
      go (err x, t) k e = cc
