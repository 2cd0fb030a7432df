-- ===== src/Fund/Repositories/Schedules.antt =====
-- payfund_app/modules/fund/infra/repositories.py: loans, their schedules and the history of their statuses.
use diddi_pay_backend.Prelude.{
  ℕ, ◌+◌, ◌++◌, Bool, true, not, ◌&&◌, String, Option, none, some, List, [], ◌∷◌, reverse, length,
  ◌==◌, ◌is◌, find_row, select_rows, update_rows, sort_by,
}
use diddi_pay_backend.Prelude.Int.{pos, ltb_ℤ}
use diddi_pay_backend.Prelude.Decimals.{Decimal}
use diddi_pay_backend.Prelude.Actions.{ok, pure, branch, raise_if, modify, ◌>>◌}
use diddi_pay_backend.Fund.Loan.{Installment}
use diddi_pay_backend.Fund.Status.{
  LoanStatus, InstallmentStatus, campaign_enum, loan_enum, installment_enum,
}
use diddi_pay_backend.Fund.Tables.{integrity_error, Loan, RepaymentSchedule, Tables}
use diddi_pay_backend.Fund.Repositories.{Fund, page_of}

abbrev loan_has_status : Option LoanStatus → Loan → Bool
loan_has_status none row = true
loan_has_status (some status) row = row.status is status

abbrev schedule_row : ℕ → ℕ → Installment → RepaymentSchedule
schedule_row id loan_id installment = record {
  id = id;
  loan_id = loan_id;
  installment_no = installment.installment_no;
  due_date = installment.due_date;
  amount_due = installment.amount_due;
  amount_paid = pos 0;
  status = InstallmentStatus.due;
  paid_at = none;
}

abbrev pub is_unpaid : RepaymentSchedule → Bool
is_unpaid row = not (row.status is InstallmentStatus.paid)

module _ {W : Type 0} where
  -- `LoanRepository`: `get`, and `get_for_update`, which also locks the row
  unfoldable pub get_loan : ℕ → Tables W → Option Loan
  get_loan id s = find_row (λ row. row.id == id) s.loans

  unfoldable pub tracer_statut : ℕ → Option LoanStatus → LoanStatus → Fund W (Unit {0})
  tracer_statut loan_id from_status to_status = modify (λ s. record s {
    history =
        s.history
        ++ record { loan_id = loan_id; from_status = from_status; to_status = to_status } ∷ [];
  })

  unfoldable pub create_loan : ℕ → ℕ → ℕ → ℕ → Decimal → ℕ → String → Option ℕ → Fund W Loan
  create_loan campaign_id borrower_user_id principal duration rate total currency score s =
      let loan : Loan = record {
        id = s.next_id;
        campaign_id = campaign_id;
        borrower_user_id = borrower_user_id;
        principal_amount = principal;
        duration_months = duration;
        interest_rate_applied = rate;
        total_repayable = total;
        currency = currency;
        diddi_score_at_grant = score;
        status = LoanStatus.pending;
        disbursed_at = none;
        wallet_transaction_id = none;
      } in
      ((λ t. (ok tt, record t { loans = t.loans ++ loan ∷ []; next_id = t.next_id + 1 }))
          >> (tracer_statut loan.id none LoanStatus.pending >> pure loan))
        s

  unfoldable pub save_loan : ℕ → (Loan → Loan) → Fund W (Unit {0})
  save_loan id f = modify (λ s. record s { loans = update_rows (λ row. row.id == id) f s.loans })

  unfoldable pub list_by_borrower : ℕ → Option LoanStatus → ℕ → ℕ → Tables W → List Loan × ℕ
  list_by_borrower borrower_user_id status page page_size s =
      let rows = reverse (
        select_rows (λ row. row.borrower_user_id == borrower_user_id && loan_has_status status row)
          s.loans) in
      (page_of page page_size rows, length rows)

  unfoldable pub changer_statut : Loan → LoanStatus → Fund W (Unit {0})
  changer_statut loan to_status = branch (loan.status is to_status) (pure tt) (
      save_loan loan.id (λ row. record row { status = to_status })
      >> tracer_statut loan.id (some loan.status) to_status)

  abbrev pub with_installment : ℕ → Installment → Tables W → Tables W
  with_installment loan_id installment s = record s {
    schedule = s.schedule ++ schedule_row s.next_id loan_id installment ∷ [];
    next_id = s.next_id + 1;
  }

  -- The loop of `ajouter_echeances`; the amounts due are positive.
  unfoldable pub ajouter_echeances : ℕ → List Installment → Fund W (Unit {0})
  ajouter_echeances loan_id [] = pure tt
  ajouter_echeances loan_id (installment ∷ rest) = do
    raise_if (not (ltb_ℤ (pos 0) installment.amount_due)) integrity_error
    modify (with_installment loan_id installment)
    ajouter_echeances loan_id rest

  -- `echeancier`, in the order of the numbers
  unfoldable pub echeancier : ℕ → Tables W → List RepaymentSchedule
  echeancier loan_id s =
      sort_by (λ row. row.installment_no) (select_rows (λ row. row.loan_id == loan_id) s.schedule)

  -- `prochaine_echeance`
  unfoldable pub prochaine_echeance : ℕ → Tables W → Option RepaymentSchedule
  prochaine_echeance loan_id s = find_row is_unpaid (echeancier loan_id s)

  unfoldable pub save_installment : ℕ → (RepaymentSchedule → RepaymentSchedule) → Fund W (Unit {0})
  save_installment id f =
      modify (λ s. record s { schedule = update_rows (λ row. row.id == id) f s.schedule })
