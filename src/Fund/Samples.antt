-- ===== src/Fund/Samples.antt =====
-- A campaign with two loans and an order, for the tests and the examples.
use diddi_pay_backend.Prelude.{ℕ, String, none, some, [], ◌∷◌}
use diddi_pay_backend.Prelude.Int.{pos}
use diddi_pay_backend.Wallet.Store.{Store}
use diddi_pay_backend.Wallet.UseCases.Samples.{environment, secured}
use diddi_pay_backend.Fund.Loan.{Date}
use diddi_pay_backend.Fund.Status.{CampaignStatus, LoanStatus, InstallmentStatus}
use diddi_pay_backend.Fund.Tables.{
  Campaign, Investment, Loan, RepaymentSchedule, FundPaymentOrder, Tables,
}
use diddi_pay_backend.Fund.Ports.{WalletServicePort, ScoringPort}
use diddi_pay_backend.Fund.WalletClient.{get_wallet_service}

abbrev pub campaign : Campaign
campaign = record {
  id = 20;
  owner_user_id = 7;
  title = "mill";
  goal_amount = pos 1000;
  raised_amount = pos 300;
  currency = "XOF";
  status = CampaignStatus.active;
  wallet_account_id = 3;
}

abbrev pub investment : Investment
investment = record {
  id = 21;
  campaign_id = 20;
  investor_user_id = 8;
  amount = pos 300;
  wallet_transaction_id = some 9;
  payment_intent_id = none;
}

abbrev pub loan : Loan
loan = record {
  id = 22;
  campaign_id = 20;
  borrower_user_id = 7;
  principal_amount = 600;
  duration_months = 6;
  interest_rate_applied = record { units = pos 0; places = 0 };
  total_repayable = 600;
  currency = "XOF";
  diddi_score_at_grant = none;
  status = LoanStatus.pending;
  disbursed_at = none;
  wallet_transaction_id = none;
}

-- Five francs over six months.
abbrev pub small_loan : Loan
small_loan = record loan { id = 23; principal_amount = 5; total_repayable = 5 }

abbrev pub today : Date
today = record { year = 2025; month = 3; day = 31 }

abbrev pub installment : RepaymentSchedule
installment = record {
  id = 24;
  loan_id = 22;
  installment_no = 1;
  due_date = record { year = 2025; month = 4; day = 30 };
  amount_due = pos 100;
  amount_paid = pos 0;
  status = InstallmentStatus.due;
  paid_at = none;
}

abbrev pub order : FundPaymentOrder
order = record {
  id = 25;
  operation_type = "investment";
  business_reference = "fund:investment:20:key";
  payer_user_id = 8;
  campaign_id = some 20;
  payment_intent_id = 70;
  idempotency_key = "key";
  amount = pos 200;
  currency = "XOF";
  status = "processing";
  completed_at = none;
}

abbrev pub tables : Tables Store
tables = record {
  wallet = secured;
  campaigns = campaign ∷ [];
  investments = investment ∷ [];
  loans = loan ∷ small_loan ∷ [];
  schedule = [];
  history = [];
  orders = order ∷ [];
  inbox = [];
  clock = 10;
  next_id = 30;
}

abbrev pub wallet : WalletServicePort Store
wallet = get_wallet_service environment

abbrev pub scoring : ScoringPort
scoring = record {
  taux_pour = λ user_id. record { units = pos 0; places = 0 };
  score_de = λ user_id. none;
}

-- A text for identifiers.
abbrev pub id_text : ℕ → String
id_text n = "id"
