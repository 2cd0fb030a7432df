-- ===== src/Fund/Repositories.antt =====
-- payfund_app/modules/fund/infra/repositories.py: campaigns and investments.
pub mod Orders
pub mod Schedules
use diddi_pay_backend.Prelude.{
  ℕ, ◌+◌, ◌-◌, ◌*◌, ◌++◌, Bool, true, false, not, ◌&&◌, String, str_eq, mem_text, Option, none,
  some, List, [], ◌∷◌, reverse, length, take, ◌==◌, ltb, ◌is◌, find_row, select_rows, update_rows,
  insert_by, sort_by, if◌then◌else◌,
}
use diddi_pay_backend.Prelude.Int.{ℤ, pos, ltb_ℤ}
use diddi_pay_backend.Prelude.Decimals.{Decimal}
use diddi_pay_backend.Prelude.Actions.{
  Result, ok, err, Action, pure, raise, gets, branch, raise_if, modify, ◌>>=◌, ◌>>◌,
}
use diddi_pay_backend.Fund.Loan.{Date, Installment}
use diddi_pay_backend.Fund.Status.{
  CampaignStatus, LoanStatus, InstallmentStatus, campaign_enum, loan_enum, installment_enum,
}
use diddi_pay_backend.Fund.Tables.{
  FundError, integrity_error, Campaign, Investment, Loan, RepaymentSchedule, LoanStatusHistory,
  FundPaymentOrder, Tables,
}

abbrev pub is_present {ℓ} : {A : Type ℓ} → Option A → Bool
is_present none = false
is_present (some _) = true

abbrev pub eq_some : ℕ → Option ℕ → Bool
eq_some n none = false
eq_some n (some m) = m == n

-- `.offset((page - 1) * page_size).limit(page_size)`
abbrev pub drop_rows {ℓ} : {A : Type ℓ} → ℕ → List A → List A
drop_rows n [] = []
drop_rows n (a ∷ rows) = let rest = drop_rows (n - 1) rows in if n == 0 then a ∷ rows else rest

abbrev pub page_of {ℓ} : {A : Type ℓ} → ℕ → ℕ → List A → List A
page_of page page_size rows = take page_size (drop_rows ((page - 1) * page_size) rows)

abbrev pub Fund : Type 0 → Type 0 → Type 0
Fund W A = Action (Tables W) FundError A

abbrev has_status : Option CampaignStatus → Campaign → Bool
has_status none row = true
has_status (some status) row = row.status is status

-- `InvestmentRepository`; amounts are positive, and two investments have no payment intent in common.
abbrev pub same_intent : Option ℕ → Investment → Bool
same_intent none row = false
same_intent (some intent) row = eq_some intent row.payment_intent_id

module _ {W : Type 0} where
  -- `CampaignRepository`: `get`, and `get_for_update`, which also locks the row
  unfoldable pub get_campaign : ℕ → Tables W → Option Campaign
  get_campaign id s = find_row (λ row. row.id == id) s.campaigns

  unfoldable pub create_campaign : ℕ → String → ℤ → String → ℕ → CampaignStatus → Fund W Campaign
  create_campaign owner_user_id title goal_amount currency wallet_account_id status s =
      let campaign : Campaign = record {
        id = s.next_id;
        owner_user_id = owner_user_id;
        title = title;
        goal_amount = goal_amount;
        raised_amount = pos 0;
        currency = currency;
        status = status;
        wallet_account_id = wallet_account_id;
      } in
      branch (ltb_ℤ (pos 0) goal_amount)
        (λ t. (
          ok campaign,
          record t { campaigns = t.campaigns ++ campaign ∷ []; next_id = t.next_id + 1 },
        ))
        (raise integrity_error) s

  -- The newest first, and the number of rows on all pages.
  unfoldable pub list_by_status : Option CampaignStatus → ℕ → ℕ → Tables W → List Campaign × ℕ
  list_by_status status page page_size s =
      let rows = reverse (select_rows (has_status status) s.campaigns) in
      (page_of page page_size rows, length rows)

  unfoldable pub save_campaign : ℕ → (Campaign → Campaign) → Fund W (Unit {0})
  save_campaign id f =
      modify (λ s. record s { campaigns = update_rows (λ row. row.id == id) f s.campaigns })

  -- The amount is positive, the campaign exists and no investment has the same payment intent.
  abbrev pub is_stored_investment : ℕ → ℤ → Option ℕ → Tables W → Bool
  is_stored_investment campaign_id amount payment_intent_id s =
      ltb_ℤ (pos 0) amount
      && is_present (find_row (λ row. row.id == campaign_id) s.campaigns)
      && not (is_present (find_row (same_intent payment_intent_id) s.investments))

  unfoldable pub create_investment : ℕ → ℕ → ℤ → Option ℕ → Option ℕ → Fund W Investment
  create_investment campaign_id investor_user_id amount wallet_transaction_id payment_intent_id s =
      let investment : Investment = record {
        id = s.next_id;
        campaign_id = campaign_id;
        investor_user_id = investor_user_id;
        amount = amount;
        wallet_transaction_id = wallet_transaction_id;
        payment_intent_id = payment_intent_id;
      } in
      branch (not (is_stored_investment campaign_id amount payment_intent_id s))
        (raise integrity_error)
        (λ t. (
          ok investment,
          record t { investments = t.investments ++ investment ∷ []; next_id = t.next_id + 1 },
        ))
        s

  unfoldable pub by_wallet_transaction : ℕ → Tables W → Option Investment
  by_wallet_transaction id s = find_row (λ row. eq_some id row.wallet_transaction_id) s.investments

  unfoldable pub latest_for_campaign : ℕ → ℕ → Tables W → List Investment
  latest_for_campaign campaign_id limit s =
      take limit (reverse (select_rows (λ row. row.campaign_id == campaign_id) s.investments))
