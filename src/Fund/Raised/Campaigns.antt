-- ===== src/Fund/Raised/Campaigns.antt =====
-- The writers of campaigns and of investments of payfund_app/modules/fund: each keeps the amount that a
-- campaign has raised equal to the sum of its investments.
use diddi_pay_backend.Prelude.{
  ℕ, ◌+◌, ◌<◌, ◌≡◌, sym, Bool, true, ◌&&◌, String, Option, List, [], ◌∷◌, ◌++◌, arith, Bool-cases,
  inl, inr, ◌==◌, find_row, update_rows,
}
use diddi_pay_backend.Prelude.Int.{ℤ, pos, ltb_ℤ}
use diddi_pay_backend.Prelude.Rows.{AllBelow, AllBelow-mono, AllBelow-append}
use diddi_pay_backend.Prelude.Actions.{◌>>=◌, ◌>>◌}
use diddi_pay_backend.Prelude.Actions.Rules.{Maintains}
use diddi_pay_backend.Fund.Status.{CampaignStatus}
use diddi_pay_backend.Fund.Tables.{Campaign, Investment, Tables}
use diddi_pay_backend.Fund.Repositories.{
  Fund, create_campaign, create_investment, save_campaign, is_stored_investment, is_present,
}
use diddi_pay_backend.Fund.Campaigns.{raised_by}
use diddi_pay_backend.Fund.Raised.{IsRaised, sum_for-below, AllRaised-append, AllRaised-invest}

-- A campaign that exists has an identifier that was given.
found-below :
    (id n : ℕ) (cs : List Campaign)
    → AllBelow (λ (c : Campaign). c.id) n cs
    → is_present (find_row (λ (c : Campaign). c.id == id) cs) ≡ true
    → id < n
found-below id n [] b h = ground arith
found-below id n (c ∷ cs) (k, b) h = ground (arith, found-below id n cs b)

update_rows-AllBelow :
    (n id : ℕ) (amount : ℤ) (cs : List Campaign)
    → AllBelow (λ (c : Campaign). c.id) n cs
    → AllBelow
        (λ (c : Campaign). c.id)
        n
        (update_rows (λ (c : Campaign). c.id == id) (raised_by amount) cs)
update_rows-AllBelow n id amount [] b = tt
update_rows-AllBelow n id amount (c ∷ cs) (k, b) = elim (Bool-cases (c.id == id)) [
  | inl same ↦ rw same (k, update_rows-AllBelow n id amount cs b)
  | inr other ↦ rw other (k, update_rows-AllBelow n id amount cs b)
]

both_true : (a b c : Bool) → (a && b && c) ≡ true → b ≡ true
both_true a b c h = ground arith

module _ {W : Type 0} where
  pub create_campaign-Maintains :
      (owner_user_id : ℕ) (title : String) (goal_amount : ℤ) (currency : String)
      (wallet_account_id : ℕ) (status : CampaignStatus)
      → Maintains
          (IsRaised {W = W})
          (create_campaign owner_user_id title goal_amount currency wallet_account_id status)
  unfolding create_campaign
  create_campaign-Maintains owner title goal currency account status = record {
    at = λ s h. elim (Bool-cases (ltb_ℤ (pos 0) goal)) [
      | inl positive ↦ rw positive (record {
        raised =
            AllRaised-append s.campaigns _ s.investments h.raised
              (sym (sum_for-below s.next_id s.investments h.investments_below));
        campaigns_below =
            AllBelow-append _ (s.next_id + 1) s.campaigns _
              (AllBelow-mono _ s.next_id (s.next_id + 1) s.campaigns (omega arith)
                h.campaigns_below)
              (omega arith);
        investments_below =
            AllBelow-mono _ s.next_id (s.next_id + 1) s.investments (omega arith)
              h.investments_below;
      })
      | inr negative ↦ rw negative tt
    ];
  }

  -- The tables after an investment and the new amount of its campaign.
  abbrev invested : Investment → Tables W → Tables W
  invested row s = record s {
    campaigns = update_rows (λ c. c.id == row.campaign_id) (raised_by row.amount) s.campaigns;
    investments = s.investments ++ row ∷ [];
    next_id = s.next_id + 1;
  }

  invested-IsRaised :
      (row : Investment) (s : Tables W)
      → row.campaign_id < s.next_id
      → IsRaised s
      → IsRaised (invested row s)
  invested-IsRaised row s b h = record {
    raised = AllRaised-invest s.campaigns s.investments row h.raised;
    campaigns_below =
        update_rows-AllBelow (s.next_id + 1) row.campaign_id row.amount s.campaigns
          (AllBelow-mono _ s.next_id (s.next_id + 1) s.campaigns (omega arith) h.campaigns_below);
    investments_below =
        AllBelow-append _ (s.next_id + 1) s.investments row
          (AllBelow-mono _ s.next_id (s.next_id + 1) s.investments (omega arith)
            h.investments_below)
          (omega arith);
  }

  -- An investment, then the amount of its campaign: between the two the sum is wrong, after them it is right.
  pub invest-Maintains :
      {B : Type 0} (id user_id : ℕ) (amount : ℤ) (transaction intent : Option ℕ)
      (k : Investment → Fund W B)
      → ((row : Investment) → Maintains IsRaised (k row))
      → Maintains IsRaised (
          create_investment id user_id amount transaction intent >>= λ row.
          save_campaign id (raised_by amount) >> k row)
  unfolding create_investment save_campaign
  invest-Maintains id user_id amount transaction intent k h = record {
    at = λ s i. elim (Bool-cases (is_stored_investment id amount intent s)) [
      | inl stored ↦ rw stored (
          (h _).at _ (
            invested-IsRaised _ s
              (found-below id s.next_id s.campaigns i.campaigns_below (both_true _ _ _ stored)) i))
      | inr refused ↦ rw refused tt
    ];
  }
