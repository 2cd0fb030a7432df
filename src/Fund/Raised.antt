-- ===== src/Fund/Raised.antt =====
-- The amount that a campaign of payfund_app/modules/fund has raised is the sum of its investments.
pub mod Campaigns
pub mod Others
pub mod UseCases
pub mod Payments
pub mod Requests
use diddi_pay_backend.Prelude.{
  ℕ, ◌+◌, ◌≤◌, ◌<◌, ◌≡◌, ◌⊎◌, refl, sym, ap, ◌∙◌, subst, Bool, true, false, not, ◌&&◌, Option, none,
  some, List, [], ◌∷◌, ◌++◌, arith, Bool-cases, Option-cases, inl, inr, ◌==◌, ==_iff, find_row,
  update_rows, if◌then◌else◌,
}
use diddi_pay_backend.Prelude.Int.{ℤ, pos, ◌+ℤ◌, ltb_ℤ, +ℤ_assoc, int_laws, +ℤ_comm}
use diddi_pay_backend.Prelude.Rows.{AllBelow, AllBelow-mono, AllBelow-append}
use diddi_pay_backend.Prelude.Actions.{
  Result, ok, err, Action, branch, raise, continue, ◌>>=◌, ◌>>◌,
}
use diddi_pay_backend.Prelude.Actions.Rules.{Maintains, After}
use diddi_pay_backend.Fund.Tables.{Campaign, Investment, Tables, FundError}
use diddi_pay_backend.Fund.Repositories.{
  Fund, create_campaign, create_investment, save_campaign, is_stored_investment,
}
use diddi_pay_backend.Fund.Status.{CampaignStatus}
use diddi_pay_backend.Fund.Campaigns.{raised_by}

-- The sum of the investments in a campaign.
abbrev pub sum_for : ℕ → List Investment → ℤ
sum_for id [] = pos 0
sum_for id (row ∷ rows) =
    let rest = sum_for id rows in if row.campaign_id == id then row.amount +ℤ rest else rest

abbrev pub AllRaised : List Campaign → List Investment → Type 0
AllRaised [] investments = Unit
AllRaised (c ∷ cs) investments =
    (c.raised_amount ≡ sum_for c.id investments) × AllRaised cs investments

-- Identifiers that were given lie below the next one.
pub record IsRaised {W : Type 0} (s : Tables W) : Type 0 where
  pub raised : AllRaised s.campaigns s.investments
  pub campaigns_below : AllBelow (λ (c : Campaign). c.id) s.next_id s.campaigns
  pub investments_below : AllBelow (λ (i : Investment). i.campaign_id) s.next_id s.investments

sum_for-append :
    (id : ℕ) (rows : List Investment) (row : Investment)
    → sum_for id (rows ++ row ∷ [])
      ≡ sum_for id rows +ℤ (if row.campaign_id == id then row.amount else pos 0)
sum_for-append id [] row = elim (Bool-cases (row.campaign_id == id)) [
  | inl same ↦ rw same (omega int_laws)
  | inr other ↦ rw other (omega int_laws)
]
sum_for-append id (r ∷ rows) row = elim (Bool-cases (r.campaign_id == id)) [
  | inl same ↦
      rw same (ap (λ z. r.amount +ℤ z) (sum_for-append id rows row) ∙ sym (+ℤ_assoc r.amount _ _))
  | inr other ↦ rw other (sum_for-append id rows row)
]

-- An identifier that was never given has no investment.
sum_for-below :
    (n : ℕ) (rows : List Investment)
    → AllBelow (λ (i : Investment). i.campaign_id) n rows
    → sum_for n rows ≡ pos 0
sum_for-below n [] b = refl
sum_for-below n (row ∷ rows) (h, b) = ground (arith, sum_for-below n rows b)

AllRaised-append :
    (cs : List Campaign) (c : Campaign) (investments : List Investment)
    → AllRaised cs investments
    → c.raised_amount ≡ sum_for c.id investments
    → AllRaised (cs ++ c ∷ []) investments
AllRaised-append [] c investments h e = (e, tt)
AllRaised-append (x ∷ cs) c investments (k, h) e = (k, AllRaised-append cs c investments h e)

==_flip : (a b : ℕ) → (b == a) ≡ false → (a == b) ≡ false
==_flip a b e = ground arith

-- An investment, and the amount of its campaign with it.
AllRaised-invest :
    (cs : List Campaign) (investments : List Investment) (row : Investment)
    → AllRaised cs investments
    → AllRaised
        (update_rows (λ c. c.id == row.campaign_id) (raised_by row.amount) cs)
        (investments ++ row ∷ [])
AllRaised-invest [] investments row h = tt
AllRaised-invest (c ∷ cs) investments row (k, h) = elim (Bool-cases (c.id == row.campaign_id)) [
  | inl same ↦ rw same (
    sym (
        sum_for-append c.id investments row
        ∙ rw ((==_iff row.campaign_id c.id).1 (sym ((==_iff c.id row.campaign_id).0 same)), k)
            refl),
    AllRaised-invest cs investments row h,
  )
  | inr other ↦ rw other (
    k
        ∙ sym (
            sum_for-append c.id investments row
            ∙ rw (==_flip row.campaign_id c.id other) (omega int_laws)),
    AllRaised-invest cs investments row h,
  )
]
