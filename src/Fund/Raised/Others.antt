-- ===== src/Fund/Raised/Others.antt =====
-- The writers of payfund_app/modules/fund that leave campaigns and investments as they are: loans, schedules,
-- orders, events and the calls of the wallet.
use diddi_pay_backend.Prelude.{
  ℕ, ◌≤◌, ◌≡◌, refl, not, String, Option, List, [], ◌∷◌, arith, Bool-cases, inl, inr,
}
use diddi_pay_backend.Prelude.Int.{pos, ltb_ℤ}
use diddi_pay_backend.Prelude.Decimals.{Decimal}
use diddi_pay_backend.Prelude.Rows.{AllBelow-mono}
use diddi_pay_backend.Prelude.Actions.{modify, raise_if, ◌>>◌}
use diddi_pay_backend.Prelude.Actions.Rules.{
  Maintains, After, maintains_rules, Maintains-bind, Maintains-raise_if,
}
use diddi_pay_backend.Wallet.Errors.{Result as WalletResult}
use diddi_pay_backend.Wallet.Errors as Wallet
use diddi_pay_backend.Fund.Loan.{Installment}
use diddi_pay_backend.Fund.Status.{LoanStatus}
use diddi_pay_backend.Fund.Tables.{
  Loan, RepaymentSchedule, FundPaymentOrder, Tables, FundError, integrity_error,
}
use diddi_pay_backend.Fund.Repositories.Schedules.{
  with_installment, tracer_statut, create_loan, save_loan, changer_statut, ajouter_echeances,
  save_installment,
}
use diddi_pay_backend.Fund.Repositories.Orders.{
  is_stored_order, create_order, save_order, add_once, mem_id,
}
use diddi_pay_backend.Fund.Campaigns.{from_wallet, as_fund_result}
use diddi_pay_backend.Fund.Raised.{IsRaised}

module _ {W : Type 0} where
  -- The same campaigns and investments, and identifiers that do not go back.
  same_campaigns :
      (s s' : Tables W)
      → s'.campaigns ≡ s.campaigns
      → s'.investments ≡ s.investments
      → s.next_id ≤ s'.next_id
      → IsRaised s
      → IsRaised s'
  same_campaigns s s' c i n h = record {
    raised = rw (c, i) h.raised;
    campaigns_below = rw c (AllBelow-mono _ s.next_id s'.next_id s.campaigns n h.campaigns_below);
    investments_below =
        rw i (AllBelow-mono _ s.next_id s'.next_id s.investments n h.investments_below);
  }

  pub from_wallet-Maintains :
      {A : Type 0} (call : W → WalletResult A × W) → Maintains (IsRaised {W = W}) (from_wallet call)
  from_wallet-Maintains call = record { at = λ s h. go s (call s.wallet) h }
    where
      go :
          {A : Type 0} (s : Tables W) (o : WalletResult A × W)
          → IsRaised s
          → After IsRaised (as_fund_result o.0, record s { wallet = o.1 })
      go s (Wallet.ok a, w) h = same_campaigns s _ refl refl (omega arith) h
      go s (Wallet.err e, w) h = tt

  pub tracer_statut-Maintains :
      (id : ℕ) (from : Option LoanStatus) (to : LoanStatus)
      → Maintains (IsRaised {W = W}) (tracer_statut id from to)
  unfolding tracer_statut
  tracer_statut-Maintains id from to = record {
    at = λ s h. same_campaigns s _ refl refl (omega arith) h;
  }

  pub save_loan-Maintains :
      (id : ℕ) (f : Loan → Loan) → Maintains (IsRaised {W = W}) (save_loan id f)
  unfolding save_loan
  save_loan-Maintains id f = record { at = λ s h. same_campaigns s _ refl refl (omega arith) h }

  pub save_installment-Maintains :
      (id : ℕ) (f : RepaymentSchedule → RepaymentSchedule)
      → Maintains (IsRaised {W = W}) (save_installment id f)
  unfolding save_installment
  save_installment-Maintains id f = record {
    at = λ s h. same_campaigns s _ refl refl (omega arith) h;
  }

  pub save_order-Maintains :
      (id : ℕ) (f : FundPaymentOrder → FundPaymentOrder)
      → Maintains (IsRaised {W = W}) (save_order id f)
  unfolding save_order
  save_order-Maintains id f = record { at = λ s h. same_campaigns s _ refl refl (omega arith) h }

  pub create_loan-Maintains :
      (campaign_id borrower_user_id principal duration : ℕ) (rate : Decimal) (total : ℕ)
      (currency : String) (score : Option ℕ)
      → Maintains
          (IsRaised {W = W})
          (create_loan campaign_id borrower_user_id principal duration rate total currency score)
  unfolding create_loan tracer_statut
  create_loan-Maintains campaign borrower principal duration rate total currency score = record {
    at = λ s h. same_campaigns s _ refl refl (omega arith) h;
  }

  pub changer_statut-Maintains :
      (loan : Loan) (to : LoanStatus) → Maintains (IsRaised {W = W}) (changer_statut loan to)
  unfolding changer_statut
  changer_statut-Maintains loan to =
      search (maintains_rules, save_loan-Maintains, tracer_statut-Maintains) depth 8

  with_installment-Maintains :
      (id : ℕ) (row : Installment)
      → Maintains (IsRaised {W = W}) (modify {E = FundError} (with_installment id row))
  with_installment-Maintains id row = record {
    at = λ s h. same_campaigns s (with_installment id row s) refl refl (omega arith) h;
  }

  pub ajouter_echeances-Maintains :
      (id : ℕ) (rows : List Installment) → Maintains (IsRaised {W = W}) (ajouter_echeances id rows)
  unfolding ajouter_echeances
  ajouter_echeances-Maintains id [] = search maintains_rules depth 3
  ajouter_echeances-Maintains id (row ∷ rows) =
      Maintains-bind (raise_if (not (ltb_ℤ (pos 0) row.amount_due)) integrity_error)
        (λ checked. modify (with_installment id row) >> ajouter_echeances id rows)
        (Maintains-raise_if _ _)
        (λ checked.
          Maintains-bind (modify (with_installment id row)) (λ added. ajouter_echeances id rows)
            (with_installment-Maintains id row) (λ added. ajouter_echeances-Maintains id rows))

  pub create_order-Maintains :
      (order : FundPaymentOrder) → Maintains (IsRaised {W = W}) (create_order order)
  unfolding create_order
  create_order-Maintains order = record {
    at = λ s h. elim (Bool-cases (is_stored_order (record order { id = s.next_id }) s)) [
      | inl new ↦ rw new (same_campaigns s _ refl refl (omega arith) h)
      | inr known ↦ rw known tt
    ];
  }

  pub add_once-Maintains : (id : ℕ) → Maintains (IsRaised {W = W}) (add_once id)
  unfolding add_once
  add_once-Maintains id = record {
    at = λ s h. elim (Bool-cases (mem_id id s.inbox)) [
      | inl known ↦ rw known h
      | inr new ↦ rw new (same_campaigns s _ refl refl (omega arith) h)
    ];
  }
