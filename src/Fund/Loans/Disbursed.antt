-- ===== src/Fund/Loans/Disbursed.antt =====
-- The disbursement of a loan by payfund_app/modules/fund/application/use_cases.py (`decaisser`).
use mathlib.Core.Option
use mathlib.Core.Option.{some-injective}
use diddi_pay_backend.Prelude.{
  ℕ, ◌≡◌, refl, subst, sym, Bool, true, false, not, Option, none, some, List, String, ◌==◌, ==_iff,
  ◌is◌, find_row, update_rows, find_row-passes, Option-cases, inl, inr, arith, ap, ◌∙◌,
  if◌then◌else◌,
}
use diddi_pay_backend.Prelude.Rows.{find_row-update_rows}
use diddi_pay_backend.Prelude.Actions.{ok, err, gets, or_raise, ◌>>=◌, ◌>>◌}
use diddi_pay_backend.Prelude.Actions.Yields.{
  Ending, Yields, Yields-raise_if, Yields-then, Yields-bind, Yields-found,
}
use diddi_pay_backend.Fund.Loan.{Date}
use diddi_pay_backend.Fund.Status.{LoanStatus, loan_enum}
use diddi_pay_backend.Fund.Tables.{loan_not_found, loan_already_disbursed, Loan, Tables}
use diddi_pay_backend.Fund.Ports.{WalletServicePort, ScoringPort}
use diddi_pay_backend.Fund.Repositories.Schedules.{
  get_loan, save_loan, tracer_statut, changer_statut,
}
use diddi_pay_backend.Fund.Loans.{mark_disbursed, disburse, decaisser}

pending_only :
    (status : LoanStatus)
    → (status is LoanStatus.pending) ≡ true
    → (status is LoanStatus.disbursed) ≡ false
pending_only status h = ground arith

-- The rows after `changer_statut`.
abbrev set_disbursed : Loan → Loan
set_disbursed row = record row { status = LoanStatus.disbursed }

mapped_disbursed :
    (o : Option Loan) (loan : Loan)
    → Option.map set_disbursed o ≡ some loan
    → (loan.status is LoanStatus.pending) ≡ false
mapped_disbursed none loan h = ground arith
mapped_disbursed (some row) loan h =
    subst (λ (l : Loan). (l.status is LoanStatus.pending) ≡ false) (some-injective _ _ h) refl

find_disbursed :
    (id : ℕ) (rows : List Loan) (loan : Loan)
    → find_row (λ row. row.id == id) (update_rows (λ row. row.id == id) set_disbursed rows)
      ≡ some loan
    → (loan.status is LoanStatus.pending) ≡ false
find_disbursed id rows loan h = mapped_disbursed (find_row (λ row. row.id == id) rows) loan (
    subst
      (λ b.
        (if b
          then Option.map set_disbursed (find_row (λ row. row.id == id) rows)
          else find_row (λ row. row.id == id) rows)
        ≡ some loan)
      ((==_iff id id).1 refl)
      (sym (find_row-update_rows (λ (row : Loan). row.id) set_disbursed id id rows (λ row. refl))
        ∙ h))

module _ {W : Type 0} where
  -- The loan that an operation answers is stored, and it is not pending.
  abbrev IsDisbursed : ℕ → Loan → Tables W → Type 0
  IsDisbursed id loan s =
      (get_loan id s ≡ some loan) × ((loan.status is LoanStatus.pending) ≡ false)

  -- The loans of the identifier are disbursed.
  abbrev AreDisbursed : {A : Type 0} → ℕ → A → Tables W → Type 0
  AreDisbursed id a s =
      (rows : List Loan) × (s.loans ≡ update_rows (λ row. row.id == id) set_disbursed rows)

  changed :
      (loan : Loan)
      → (loan.status is LoanStatus.pending) ≡ true
      → Yields (AreDisbursed loan.id) (changer_statut loan LoanStatus.disbursed)
  unfolding changer_statut save_loan tracer_statut
  changed loan h = record { at = λ s. rw (pending_only loan.status h) (s.loans, refl) }

  reread :
      (id : ℕ) (s : Tables W) (u : Unit {0})
      → AreDisbursed id u s
      → Ending (IsDisbursed id) ((gets (get_loan id) >>= λ last. or_raise last loan_not_found) s)
  unfolding get_loan
  reread id s u (rows, e) = elim (Option-cases (find_row (λ row. row.id == id) s.loans)) [
    | inl absent ↦ rw absent tt
    | inr (loan, found) ↦
        rw found
          (found, find_disbursed id rows loan (ap (find_row (λ row. row.id == id)) (sym e) ∙ found))
  ]

  mark_disbursed-IsDisbursed :
      (loan : Loan)
      → (loan.status is LoanStatus.pending) ≡ true
      → (wallet_transaction_id : ℕ)
      → Yields (IsDisbursed loan.id) (mark_disbursed loan wallet_transaction_id)
  unfolding mark_disbursed
  mark_disbursed-IsDisbursed loan h wallet_transaction_id =
      let tail : Yields (IsDisbursed loan.id) (
          changer_statut loan LoanStatus.disbursed
          >> (gets (get_loan loan.id) >>= λ last. or_raise last loan_not_found)) =
        Yields-bind (IsDisbursed loan.id) (AreDisbursed loan.id)
          (changer_statut loan LoanStatus.disbursed)
          (λ u. gets (get_loan loan.id) >>= λ last. or_raise last loan_not_found) (changed loan h)
          (λ u s k. reread loan.id s u k) in
      search (Yields-then (IsDisbursed loan.id), tail) depth 4

module _ {W : Type 0} (wallet : WalletServicePort W) (scoring : ScoringPort)
    (id_text : ℕ → String) where
  disburse-IsDisbursed :
      (loan : Loan) (today : Date)
      → (loan.status is LoanStatus.pending) ≡ true
      → Yields (IsDisbursed loan.id) (disburse wallet scoring id_text loan today)
  unfolding disburse
  disburse-IsDisbursed loan today h =
      search (Yields-then (IsDisbursed loan.id), mark_disbursed-IsDisbursed loan h) depth 12

  is_pending : (b : Bool) → not b ≡ false → b ≡ true
  is_pending b h = ground arith

  decaisser-IsDisbursed :
      (loan_id : ℕ) (today : Date)
      → Yields (IsDisbursed loan_id) (decaisser wallet scoring id_text loan_id today)
  unfolding decaisser get_loan
  decaisser-IsDisbursed loan_id today =
      Yields-found _ (get_loan loan_id) loan_not_found _ (λ loan s found.
        Yields-raise_if _ _ _ _ (λ waits.
          subst (λ k. Yields (IsDisbursed k) (disburse wallet scoring id_text loan today))
            ((==_iff loan.id loan_id).0 (find_row-passes _ s.loans loan found))
            (disburse-IsDisbursed loan today (is_pending _ waits))))

  -- A loan whose disbursement returned is disbursed once: a second call, on any day, raises and
  -- writes nothing.
  pub decaisser-once :
      (loan_id : ℕ) (today tomorrow : Date) (loan : Loan) (s s' : Tables W)
      → decaisser wallet scoring id_text loan_id today s ≡ (ok loan, s')
      → decaisser wallet scoring id_text loan_id tomorrow s' ≡ (err loan_already_disbursed, s')
  unfolding decaisser
  decaisser-once loan_id today tomorrow loan s s' h =
      let (found, done) : IsDisbursed loan_id loan s' =
        subst (Ending (IsDisbursed loan_id)) h ((decaisser-IsDisbursed loan_id today).at s) in
      rw (found, done) refl
