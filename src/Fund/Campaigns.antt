-- ===== src/Fund/Campaigns.antt =====
-- payfund_app/modules/fund/application/use_cases.py: `FundUseCases`, campaigns and investments.
use diddi_pay_backend.Prelude.{
  ℕ, not, String, concat, take_text, Option, none, some, List, ◌==◌, ◌is◌,
}
use diddi_pay_backend.Prelude.Int.{ℤ, ◌+ℤ◌, ltb_ℤ}
use diddi_pay_backend.Prelude.Actions.{Result, ok, err, pure, gets, raise_if, or_raise, ◌>>=◌, ◌>>◌}
use diddi_pay_backend.Wallet.Errors.{Result as WalletResult}
use diddi_pay_backend.Wallet.Errors as Wallet
use diddi_pay_backend.Wallet.Entities.{fund_disbursement}
use diddi_pay_backend.Fund.Status.{CampaignStatus, campaign_enum}
use diddi_pay_backend.Fund.Tables.{
  FundError, campaign_not_found, campaign_not_active, campaign_goal_already_reached,
  cannot_invest_in_own_campaign, wallet_error, Campaign, Investment, Tables,
}
use diddi_pay_backend.Fund.Ports.{WalletServicePort}
use diddi_pay_backend.Fund.Repositories.{
  Fund, get_campaign, create_campaign, list_by_status, save_campaign, create_investment,
  by_wallet_transaction, latest_for_campaign,
}

pub record InvestmentResult : Type 0 where
  pub investment : Investment
  pub wallet_transaction_id : ℕ

abbrev pub as_fund_result : {A : Type 0} → WalletResult A → Result FundError A
as_fund_result (Wallet.ok a) = ok a
as_fund_result (Wallet.err e) = err (wallet_error e)

-- A call of the wallet, which shares the session.
abbrev pub from_wallet : {W A : Type 0} → (W → WalletResult A × W) → Fund W A
from_wallet call s = let (r, w) = call s.wallet in (as_fund_result r, record s { wallet = w })

abbrev pub raised_by : ℤ → Campaign → Campaign
raised_by amount row = record row { raised_amount = row.raised_amount +ℤ amount }

module _ {W : Type 0} (wallet : WalletServicePort W) (id_text : ℕ → String) where
  -- `creer_campagne`
  unfoldable pub creer_campagne : ℕ → String → ℤ → String → Fund W Campaign
  creer_campagne owner_user_id title goal_amount currency = do
    wallet_account_id ←
        from_wallet (wallet.ouvrir_compte_technique (concat "fund:campaign:" (take_text 40 title)))
    create_campaign owner_user_id title goal_amount currency wallet_account_id CampaignStatus.draft

  -- The checks of `investir` on a campaign.
  unfoldable pub check_campaign : Campaign → ℕ → Fund W (Unit {0})
  check_campaign campaign investor_user_id = do
    raise_if (not (campaign.status is CampaignStatus.active)) campaign_not_active
    raise_if (campaign.owner_user_id == investor_user_id) cannot_invest_in_own_campaign
    raise_if (not (ltb_ℤ campaign.raised_amount campaign.goal_amount)) campaign_goal_already_reached

  -- The investment of a wallet transaction that has none.
  unfoldable pub record_investment : ℕ → ℕ → ℤ → ℕ → Fund W InvestmentResult
  record_investment campaign_id investor_user_id amount wallet_transaction_id = do
    investment ←
        create_investment campaign_id investor_user_id amount (some wallet_transaction_id) none
    save_campaign campaign_id (raised_by amount)
    pure (record { investment = investment; wallet_transaction_id = wallet_transaction_id })

  abbrev pub unless_recorded :
      ℕ → Option Investment → Fund W InvestmentResult → Fund W InvestmentResult
  unless_recorded id none action = action
  unless_recorded id (some investment) action =
      pure (record { investment = investment; wallet_transaction_id = id })

  -- `investir`
  unfoldable pub investir : ℕ → ℕ → ℤ → String → String → Fund W InvestmentResult
  investir campaign_id investor_user_id amount pin idempotency_key = do
    from_wallet (wallet.verifier_pin_utilisateur investor_user_id pin)
    found ← gets (get_campaign campaign_id)
    campaign ← or_raise found campaign_not_found
    check_campaign campaign investor_user_id
    investor_account_id ← from_wallet (wallet.compte_de_utilisateur investor_user_id)
    wallet_transaction_id ← from_wallet (
        wallet.debiter investor_account_id campaign.wallet_account_id amount
          (concat "fund:investment:" (id_text campaign_id)) idempotency_key fund_disbursement
          (some "fund"))
    already ← gets (by_wallet_transaction wallet_transaction_id)
    unless_recorded wallet_transaction_id already
        (record_investment campaign_id investor_user_id amount wallet_transaction_id)

-- `lister_campagnes`
unfoldable pub lister_campagnes :
    {W : Type 0} → Option CampaignStatus → ℕ → ℕ → Tables W → List Campaign × ℕ
lister_campagnes status page page_size = list_by_status status page page_size

-- `detail_campagne`
unfoldable pub detail_campagne : {W : Type 0} → ℕ → Fund W (Campaign × List Investment)
detail_campagne campaign_id = do
  found ← gets (get_campaign campaign_id)
  campaign ← or_raise found campaign_not_found
  investments ← gets (latest_for_campaign campaign_id 10)
  pure (campaign, investments)
