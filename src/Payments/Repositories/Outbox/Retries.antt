-- ===== src/Payments/Repositories/Outbox/Retries.antt =====
-- How often and how long the outbox of payfund_app/modules/payments/infra/repositories.py retries.
use native.Mathlib.Nat.{one-le-pow}
use diddi_pay_backend.Prelude.{
  ℕ, ◌+◌, ◌≤◌, ◌<◌, ◌≡◌, refl, arith, min, true, false, ◌↔◌, leb, String, Bool-cases, inl, inr,
  none,
}
use diddi_pay_backend.Payments.Database.{PaymentOutboxRecord, pending, dead_letter}
use diddi_pay_backend.Payments.Repositories.Outbox.{is_due, retry_delay, marked_failed}

retry_delay_bounds : (n : ℕ) → (1 ≤ retry_delay n) × (retry_delay n ≤ 3600)
unfolding retry_delay
retry_delay_bounds n = omega (arith, one-le-pow (min n 10) 2 (omega arith))

-- What a failed delivery does to a row: it counts one attempt and gives up the lease; at the last
-- attempt the row is dead and never due again, before that it waits between one second and an
-- hour, and is due from then on and not before.
pub marked_failed_lem :
    (now max_attempts : ℕ) (message : String) (row : PaymentOutboxRecord)
    → ((marked_failed now max_attempts message row).attempts ≡ row.attempts + 1)
      × ((marked_failed now max_attempts message row).locked_at ≡ none)
      × (max_attempts ≤ row.attempts + 1
          → ((marked_failed now max_attempts message row).status ≡ dead_letter)
            × ((later lease : ℕ)
                → is_due later lease (marked_failed now max_attempts message row) ≡ false))
      × (row.attempts + 1 < max_attempts
          → ((marked_failed now max_attempts message row).status ≡ pending)
            × ((wait : ℕ) × (1 ≤ wait)
                × (wait ≤ 3600)
                × ((later lease : ℕ)
                    → (is_due later lease (marked_failed now max_attempts message row) ≡ true)
                      ↔ (now + wait ≤ later))))
unfolding marked_failed is_due
marked_failed_lem now max_attempts message row =
    elim (Bool-cases (leb max_attempts (row.attempts + 1))) [
      | inl last ↦
          rw last (refl, refl, λ h. (refl, λ later lease. refl), λ h. absurd (ground arith))
      | inr more ↦ rw more (
        refl,
        refl,
        λ h. absurd (ground arith),
        λ h. (
          refl,
          (
            retry_delay (row.attempts + 1),
            (retry_delay_bounds (row.attempts + 1)).0,
            (retry_delay_bounds (row.attempts + 1)).1,
            λ later lease. (λ k. ground arith, λ k. ground arith),
          ),
        ),
      )
    ]
