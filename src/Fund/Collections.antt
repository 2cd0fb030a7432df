-- ===== src/Fund/Collections.antt =====
-- payfund_app/modules/fund/application/payment_use_cases.py: `FundPaymentUseCases`, investments that are paid
-- through the payment module.
pub mod Events
pub mod Once
use diddi_pay_backend.Prelude.{
  ℕ, Bool, true, false, not, ◌&&◌, ◌||◌, String, str_eq, mem_text, is_empty, concat, take_text,
  Option, none, some, List, ◌==◌, ◌is◌,
}
use diddi_pay_backend.Prelude.Int.{ℤ, pos, ◌+ℤ◌, ◌-ℤ◌, ltb_ℤ}
use diddi_pay_backend.Prelude.Actions.{
  Result, ok, err, Action, pure, raise, gets, lift, branch, raise_if, or_raise, request, ◌>>=◌,
  ◌>>◌,
}
use diddi_pay_backend.Fund.Status.{CampaignStatus, campaign_enum}
use diddi_pay_backend.Fund.Tables.{
  FundError, campaign_not_found, campaign_not_active, campaign_goal_already_reached,
  cannot_invest_in_own_campaign, value_error, lookup_error, runtime_error, integrity_error,
  Campaign, FundPaymentOrder, Tables,
}
use diddi_pay_backend.Fund.Ports.{PaymentOrchestratorPort, FundPaymentResult, CollectionRequest}
use diddi_pay_backend.Fund.Repositories.{
  Fund, eq_some, get_campaign, save_campaign, create_investment,
}
use diddi_pay_backend.Fund.Repositories.Orders.{
  get_order, by_idempotency, by_payment_intent, create_order, save_order, add_once, order_statuses,
}
use diddi_pay_backend.Fund.Campaigns.{raised_by}

pub record FundPaymentOrderView : Type 0 where
  pub order : FundPaymentOrder
  pub payment : Option FundPaymentResult

pub record InvestmentCommand : Type 0 where
  pub campaign_id : ℕ
  pub investor_user_id : ℕ
  pub amount : ℤ
  pub idempotency_key : String
  pub channel : Option String
  pub network : Option String
  pub customer_email : Option String
  pub customer_phone : Option String
  pub callback_url : Option String

abbrev pub is_amount : ℤ → ℤ → Bool
is_amount a b = not (ltb_ℤ a b) && not (ltb_ℤ b a)

abbrev pub is_same_order : InvestmentCommand → FundPaymentOrder → Bool
is_same_order command order =
    eq_some command.campaign_id order.campaign_id
    && order.payer_user_id == command.investor_user_id
    && is_amount order.amount command.amount

abbrev pub is_text : String → Option String → Bool
is_text s none = false
is_text s (some t) = str_eq t s

abbrev is_payers : ℕ → Option FundPaymentOrder → Bool
is_payers user_id none = false
is_payers user_id (some order) = order.payer_user_id == user_id

abbrev pub is_integrity_error : FundError → Bool
is_integrity_error integrity_error = true
is_integrity_error e = false

module _ (id_text : ℕ → String) where
  abbrev reference_of : InvestmentCommand → String
  reference_of command =
      concat "fund:investment:"
        (concat (id_text command.campaign_id) (concat ":" (take_text 24 command.idempotency_key)))

  abbrev collection_request : InvestmentCommand → Campaign → CollectionRequest
  collection_request command campaign = record {
    business_reference = reference_of command;
    amount = command.amount;
    currency = campaign.currency;
    payer_user_id = command.investor_user_id;
    idempotency_key = command.idempotency_key;
    channel = command.channel;
    network = command.network;
    customer_email = command.customer_email;
    customer_phone = command.customer_phone;
    callback_url = command.callback_url;
    campaign_id = command.campaign_id;
  }

  -- The order, which `create_order` gives an identifier.
  abbrev order_of : InvestmentCommand → Campaign → FundPaymentResult → FundPaymentOrder
  order_of command campaign payment = record {
    id = 0;
    operation_type = "investment";
    business_reference = reference_of command;
    payer_user_id = command.investor_user_id;
    campaign_id = some command.campaign_id;
    payment_intent_id = payment.payment_intent_id;
    idempotency_key = command.idempotency_key;
    amount = command.amount;
    currency = campaign.currency;
    status = payment.status;
    completed_at = none;
  }

module _ {W : Type 0} (payments : Option PaymentOrchestratorPort) (id_text : ℕ → String) where
  abbrev pub collection_of :
      Option PaymentOrchestratorPort → FundPaymentOrder → Fund W FundPaymentOrderView
  collection_of none order = pure (record { order = order; payment = none })
  collection_of (some port) order =
      lift (port.get_collection order.payment_intent_id) >>= λ payment.
      pure (record { order = order; payment = some payment })

  -- `start_investment` on a key that is known
  unfoldable pub known_investment :
      InvestmentCommand → FundPaymentOrder → Fund W FundPaymentOrderView
  known_investment command existing = do
    raise_if (not (is_same_order command existing)) (value_error "IDEMPOTENCY_CONFLICT")
    collection_of payments existing

  -- The checks of `start_investment` on a campaign.
  unfoldable pub check_remaining : InvestmentCommand → Campaign → Fund W (Unit {0})
  check_remaining command campaign = do
    raise_if (not (campaign.status is CampaignStatus.active)) campaign_not_active
    raise_if (campaign.owner_user_id == command.investor_user_id) cannot_invest_in_own_campaign
    let remaining : ℤ = campaign.goal_amount -ℤ campaign.raised_amount
    raise_if (not (ltb_ℤ (pos 0) remaining) || ltb_ℤ remaining command.amount)
        campaign_goal_already_reached

  abbrev pub create_collection :
      Option PaymentOrchestratorPort → CollectionRequest → Fund W FundPaymentResult
  create_collection none r = raise runtime_error
  create_collection (some port) r = lift (port.create_collection r)

  -- `except IntegrityError`: after the rollback, the order of a concurrent call.
  unfoldable pub concurrent_order : InvestmentCommand → Fund W FundPaymentOrder
  concurrent_order command = do
    found ← gets (by_idempotency command.idempotency_key)
    order ← or_raise found integrity_error
    raise_if (not (is_same_order command order)) (value_error "IDEMPOTENCY_CONFLICT")
    pure order

  abbrev pub settle_order :
      InvestmentCommand → Tables W → Result FundError FundPaymentOrder → Fund W FundPaymentOrder
  settle_order command saved (ok order) s = (ok order, s)
  settle_order command saved (err e) s =
      branch (is_integrity_error e) (λ t. concurrent_order command saved) (raise e) s

  unfoldable pub place_order : InvestmentCommand → FundPaymentOrder → Fund W FundPaymentOrder
  place_order command order s = let (r, s') = create_order order s in settle_order command s r s'

  -- `start_investment` on a new key
  unfoldable pub new_investment : InvestmentCommand → Fund W FundPaymentOrderView
  new_investment command = do
    found ← gets (get_campaign command.campaign_id)
    campaign ← or_raise found campaign_not_found
    check_remaining command campaign
    payment ← create_collection payments (collection_request id_text command campaign)
    order ← place_order command (order_of id_text command campaign payment)
    pure (record { order = order; payment = some payment })

  abbrev pub with_existing :
      InvestmentCommand → Option FundPaymentOrder → Fund W FundPaymentOrderView
  with_existing command none = new_investment command
  with_existing command (some order) = known_investment command order

  -- `start_investment`
  unfoldable pub start_investment : InvestmentCommand → Fund W FundPaymentOrderView
  start_investment command = do
    existing ← gets (by_idempotency command.idempotency_key)
    with_existing command existing

  -- `get_order`
  unfoldable pub view_order : ℕ → ℕ → Fund W FundPaymentOrderView
  view_order order_id user_id = do
    found ← gets (get_order order_id)
    raise_if (not (is_payers user_id found)) lookup_error
    order ← or_raise found lookup_error
    collection_of payments order
