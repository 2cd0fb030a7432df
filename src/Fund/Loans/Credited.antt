-- ===== src/Fund/Loans/Credited.antt =====
-- The installment that `rembourser` of payfund_app/modules/fund/application/use_cases.py answers.
use diddi_pay_backend.Prelude.{ℕ, ◌≡◌, refl, false, String, Bool-cases, inl, inr, arith}
use diddi_pay_backend.Prelude.Int.{ℤ, ltb_ℤ, ◌-ℤ◌, ◌+ℤ◌}
use diddi_pay_backend.Prelude.Actions.{pure}
use diddi_pay_backend.Prelude.Actions.Yields.{Yields, Yields-then, Yields-raise_if}
use diddi_pay_backend.Fund.Status.{InstallmentStatus}
use diddi_pay_backend.Fund.Tables.{FundError, Loan, RepaymentSchedule, Tables}
use diddi_pay_backend.Fund.Ports.{WalletServicePort, ScoringPort}
use diddi_pay_backend.Fund.Loans.{paid_by, impute, repay}

module _ {W : Type 0} where
  -- The installment that is answered has the amount, which was within what was left of it.
  abbrev pub IsCredited : RepaymentSchedule → ℤ → Loan × RepaymentSchedule → Tables W → Type 0
  IsCredited row amount answer s =
      (ltb_ℤ (row.amount_due -ℤ row.amount_paid) amount ≡ false)
      × (answer.1.id ≡ row.id)
      × (answer.1.amount_paid ≡ row.amount_paid +ℤ amount)
      × (ltb_ℤ answer.1.amount_paid row.amount_due ≡ false
          → answer.1.status ≡ InstallmentStatus.paid)

  paid_by-IsCredited :
      (loan : Loan) (row : RepaymentSchedule) (amount : ℤ) (now : ℕ)
      → ltb_ℤ (row.amount_due -ℤ row.amount_paid) amount ≡ false
      → Yields {E = FundError} (IsCredited row amount) (pure (loan, paid_by amount now row))
  paid_by-IsCredited loan row amount now within =
      elim (Bool-cases (ltb_ℤ (row.amount_paid +ℤ amount) row.amount_due)) [
        | inl less ↦ rw less (record { at = λ s. (within, refl, refl, λ h. ground arith) })
        | inr all ↦ rw all (record { at = λ s. (within, refl, refl, λ h. refl) })
      ]

  impute-IsCredited :
      (loan : Loan) (row : RepaymentSchedule) (amount : ℤ)
      → ltb_ℤ (row.amount_due -ℤ row.amount_paid) amount ≡ false
      → (transaction : ℕ) → Yields (IsCredited row amount) (impute loan row amount transaction)
  unfolding impute
  impute-IsCredited loan row amount within transaction =
      search (Yields-then (IsCredited row amount), paid_by-IsCredited) depth 30

  pub repay-IsCredited :
      (wallet : WalletServicePort W) (scoring : ScoringPort) (id_text : ℕ → String) (loan : Loan)
      (row : RepaymentSchedule) (amount : ℤ) (key : String)
      → Yields (IsCredited row amount) (repay wallet scoring id_text loan row amount key)
  unfolding repay
  repay-IsCredited wallet scoring id_text loan row amount key =
      search
        (
          Yields-raise_if (IsCredited row amount),
          Yields-then (IsCredited row amount),
          impute-IsCredited,
        )
        depth 16
