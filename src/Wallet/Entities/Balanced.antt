-- ===== src/Wallet/Entities/Balanced.antt =====
-- What `assert_balanced` of payfund_app/modules/wallet/domain/entities.py accepts.
use diddi_pay_backend.Prelude.{
  ◌<◌, ◌≤◌, ◌≡◌, ◌≢◌, refl, ap, sym, ◌∙◌, ◌↔◌, ◌⊎◌, inl, inr, true, not, ◌||◌, List, [], ◌∷◌,
  length, ltb, ltb→lt, Bool-cases, arith,
}
use diddi_pay_backend.Prelude.Int.{ℤ, pos, ◌+ℤ◌, +ℤ_assoc, int_laws}
use diddi_pay_backend.Wallet.Errors.{ok, err, unbalanced_ledger}
use diddi_pay_backend.Wallet.Money.{currency_enum}
use diddi_pay_backend.Wallet.Entities.{
  PostingLine, signed, has_one_currency, sum_lines, is_zero, assert_balanced,
}

-- The algebraic sum of the lines: credits count up and debits down.
abbrev pub line_sum : List PostingLine → ℤ
line_sum [] = pos 0
line_sum (line ∷ lines) = signed line.direction line.money.amount +ℤ line_sum lines

abbrev pub AllPositive : List PostingLine → Type 0
AllPositive [] = Unit
AllPositive (line ∷ lines) = (0 < line.money.amount) × AllPositive lines

pub record IsBalanced (lines : List PostingLine) : Type 0 where
  pub two_lines : 2 ≤ length lines
  pub one_currency : has_one_currency lines ≡ true
  pub positive : AllPositive lines
  pub sums_to_zero : line_sum lines ≡ pos 0

plus_zero : (a : ℤ) → a +ℤ pos 0 ≡ a
plus_zero a = omega int_laws

pub zero_plus : (a : ℤ) → pos 0 +ℤ a ≡ a
zero_plus a = omega int_laws

-- What the loop answers.
sum_lines_lem :
    (lines : List PostingLine) (total : ℤ)
    → (AllPositive lines × (sum_lines lines total ≡ ok (total +ℤ line_sum lines)))
      ⊎ ((AllPositive lines → ⊥) × (sum_lines lines total ≡ err unbalanced_ledger))
unfolding sum_lines
sum_lines_lem [] total = inl (tt, ap ok (sym (plus_zero total)))
sum_lines_lem (line ∷ lines) total = elim (Bool-cases (ltb 0 line.money.amount)) [
  | inl above ↦ rw above (
      step (ltb→lt 0 line.money.amount above)
        (sum_lines_lem lines (total +ℤ signed line.direction line.money.amount)))
  | inr low ↦ rw low (inr (λ h. ground arith, refl))
]
  where
    step :
        0 < line.money.amount
        → (AllPositive lines
            × (sum_lines lines (total +ℤ signed line.direction line.money.amount)
                ≡ ok ((total +ℤ signed line.direction line.money.amount) +ℤ line_sum lines)))
          ⊎ ((AllPositive lines → ⊥)
              × (sum_lines lines (total +ℤ signed line.direction line.money.amount)
                  ≡ err unbalanced_ledger))
        → (AllPositive (line ∷ lines)
            × (sum_lines lines (total +ℤ signed line.direction line.money.amount)
                ≡ ok (total +ℤ line_sum (line ∷ lines))))
          ⊎ ((AllPositive (line ∷ lines) → ⊥)
              × (sum_lines lines (total +ℤ signed line.direction line.money.amount)
                  ≡ err unbalanced_ledger))
    step many (inl (h, e)) =
        inl ((many, h), e ∙ ap ok (+ℤ_assoc total (signed line.direction line.money.amount) _))
    step many (inr (h, e)) = inr (λ k. h k.1, e)

is_zero-cases :
    (z : ℤ)
    → ((z ≡ pos 0) × (is_zero (ok z) ≡ ok tt))
      ⊎ ((z ≢ pos 0) × (is_zero (ok z) ≡ err unbalanced_ledger))
is_zero-cases z = ground arith

-- `assert_balanced` accepts exactly the lines of a balanced transaction: at least two lines of one
-- currency, every amount positive, and the credits as large as the debits. It refuses all others
-- with the ledger's own error.
pub assert_balanced_lem :
    (lines : List PostingLine)
    → ((assert_balanced lines ≡ ok tt) ↔ IsBalanced lines)
      × ((assert_balanced lines ≡ ok tt) ⊎ (assert_balanced lines ≡ err unbalanced_ledger))
unfolding assert_balanced
assert_balanced_lem lines =
    elim (Bool-cases (ltb (length lines) 2 || not (has_one_currency lines))) [
      | inl bad ↦
          rw bad ((λ e. cc, λ b. absurd (ground (arith, b.two_lines, b.one_currency))), inr refl)
      | inr good ↦ rw good (summed (ground arith) (ground arith) (sum_lines_lem lines (pos 0)))
    ]
  where
    zero_sum :
        2 ≤ length lines
        → has_one_currency lines ≡ true
        → AllPositive lines
        → ((line_sum lines ≡ pos 0) × (is_zero (ok (line_sum lines)) ≡ ok tt))
          ⊎ ((line_sum lines ≢ pos 0) × (is_zero (ok (line_sum lines)) ≡ err unbalanced_ledger))
        → ((is_zero (ok (line_sum lines)) ≡ ok tt) ↔ IsBalanced lines)
          × ((is_zero (ok (line_sum lines)) ≡ ok tt)
              ⊎ (is_zero (ok (line_sum lines)) ≡ err unbalanced_ledger))
    zero_sum two one h (inl (z, e)) = (
      (λ k. record { two_lines = two; one_currency = one; positive = h; sums_to_zero = z }, λ k. e),
      inl e,
    )
    zero_sum two one h (inr (z, e)) = ((λ k. cc, λ b. absurd (z b.sums_to_zero)), inr e)

    summed :
        2 ≤ length lines
        → has_one_currency lines ≡ true
        → (AllPositive lines × (sum_lines lines (pos 0) ≡ ok (pos 0 +ℤ line_sum lines)))
          ⊎ ((AllPositive lines → ⊥) × (sum_lines lines (pos 0) ≡ err unbalanced_ledger))
        → ((is_zero (sum_lines lines (pos 0)) ≡ ok tt) ↔ IsBalanced lines)
          × ((is_zero (sum_lines lines (pos 0)) ≡ ok tt)
              ⊎ (is_zero (sum_lines lines (pos 0)) ≡ err unbalanced_ledger))
    summed two one (inl (h, e)) =
        rw (e, zero_plus (line_sum lines)) (zero_sum two one h (is_zero-cases (line_sum lines)))
    summed two one (inr (h, e)) = rw e ((λ k. cc, λ b. absurd (h b.positive)), inr refl)
