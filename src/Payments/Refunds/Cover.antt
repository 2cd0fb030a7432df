-- ===== src/Payments/Refunds/Cover.antt =====
-- What the refunds of payfund_app/modules/payments keep: the refunds of a payment never exceed it.
use diddi_pay_backend.Prelude.{
  ℕ, ◌+◌, ◌≤◌, ◌≡◌, ◌&&◌, some, List, [], ◌∷◌, ◌++◌, if◌then◌else◌, ◌==◌, ◌is◌, sum_rows, arith,
  find_row, false, true, sum_rows-append, update_rows, ◌⊎◌, ◌≢◌, refl,
}
use diddi_pay_backend.Prelude.Rows
use diddi_pay_backend.Payments.Status.{RefundStatus, refund_enum}
use diddi_pay_backend.Payments.Errors.{ok}
use diddi_pay_backend.Payments.Entities.{PaymentIntent, apply_refund}
use diddi_pay_backend.Payments.Entities.RefundedAmount.{Agrees, apply_refund_ok}
use diddi_pay_backend.Payments.Database.{Database, RefundRecord}
use diddi_pay_backend.Payments.Repositories.Intents
use diddi_pay_backend.Payments.Repositories.Refunds
use diddi_pay_backend.Payments.Repositories.Laws.{intent_key}

-- What a row adds to the refunds of an intent that have succeeded.
abbrev pub succeeded_amount : ℕ → RefundRecord → ℕ
succeeded_amount intent_id row =
    if row.refund.payment_intent_id == intent_id && row.refund.status is RefundStatus.succeeded
    then row.refund.money.amount
    else 0

abbrev pub refund_key : RefundRecord → ℕ
refund_key row = row.refund.id

-- Of each intent: the recorded refunded amount is the sum of its succeeded refunds and agrees with its
-- status, and the refunds that did not fail stay within the amount. Refund identifiers lie below `n`.
pub record Covers (n : ℕ) (intents : List PaymentIntent) (refunds : List RefundRecord)
    : Type 0 where
  pub fresh : Rows.AllBelow refund_key n refunds
  pub recorded :
      (k : ℕ) (x : PaymentIntent)
      → find_row (Rows.has_key intent_key k) intents ≡ some x
      → x.refunded_amount ≡ sum_rows (succeeded_amount k) refunds
  pub agreed :
      (k : ℕ) (x : PaymentIntent)
      → find_row (Rows.has_key intent_key k) intents ≡ some x
      → Agrees x.status x.refunded_amount x.money.amount
  pub within :
      (k : ℕ) (x : PaymentIntent)
      → find_row (Rows.has_key intent_key k) intents ≡ some x
      → sum_rows (Refunds.active_amount k) refunds ≤ x.money.amount

abbrev pub IsCovered : ℕ → Database → Type 0
IsCovered n db = Covers n db.intents db.refunds

module _ (n : ℕ) (intents : List PaymentIntent) (refunds : List RefundRecord)
    (intent : PaymentIntent) (row : RefundRecord) (h : Covers n intents refunds)
    (found : find_row (Rows.has_key intent_key intent.id) intents ≡ some intent)
    (fits : sum_rows (Refunds.active_amount intent.id) refunds + row.refund.money.amount
      ≤ intent.money.amount)
    (new : row.refund.id ≡ n) (drawn : row.refund.payment_intent_id ≡ intent.id) where
  within-append :
      (k : ℕ) (x : PaymentIntent)
      → find_row (Rows.has_key intent_key k) intents ≡ some x
      → sum_rows (Refunds.active_amount k) (refunds ++ row ∷ []) ≤ x.money.amount
  within-append k x e =
      ground (arith, h.within k x e, sum_rows-append (Refunds.active_amount k) refunds (row ∷ []))

  -- One more refund that has not succeeded.
  pub unsettled-Covers :
      row.refund.status is RefundStatus.succeeded ≡ false
      → Covers (n + 1) intents (refunds ++ row ∷ [])
  unsettled-Covers waiting = record {
    fresh =
        Rows.AllBelow-append refund_key (n + 1) refunds row
          (Rows.AllBelow-mono refund_key n (n + 1) refunds (omega arith) h.fresh) (omega arith);
    recorded = λ k x e.
        ground (arith, h.recorded k x e, sum_rows-append (succeeded_amount k) refunds (row ∷ []));
    agreed = h.agreed;
    within = within-append;
  }

  module _ (now : ℕ) (intent' : PaymentIntent)
      (applied : apply_refund now row.refund.money.amount intent ≡ ok intent')
      (status : row.refund.status is RefundStatus.succeeded ≡ true) where
    abbrev settled : List PaymentIntent
    settled = update_rows (Rows.has_key intent_key intent'.id) (Intents.saved intent') intents

    -- What is on record of an intent after the refund is applied.
    settled_cases :
        (k : ℕ) (x : PaymentIntent)
        → find_row (Rows.has_key intent_key k) settled ≡ some x
        → ((k ≡ intent.id) × (x ≡ Intents.saved intent' intent))
          ⊎ ((k ≢ intent.id) × (find_row (Rows.has_key intent_key k) intents ≡ some x))
    settled_cases k x e = ground (
      arith,
      apply_refund_ok now row.refund.money.amount intent intent' applied,
      Rows.find_row-update_rows intent_key (Intents.saved intent') k intent'.id intents (λ a. refl),
    )

    -- One more refund that has succeeded, with its effect on the intent.
    pub settled-Covers : Covers (n + 1) settled (refunds ++ row ∷ [])
    settled-Covers = record {
      fresh =
          Rows.AllBelow-append refund_key (n + 1) refunds row
            (Rows.AllBelow-mono refund_key n (n + 1) refunds (omega arith) h.fresh) (omega arith);
      recorded = λ k x e. ground (
        arith,
        settled_cases k x e,
        h.recorded k x,
        h.recorded intent.id intent found,
        apply_refund_ok now row.refund.money.amount intent intent' applied,
        sum_rows-append (succeeded_amount k) refunds (row ∷ []),
      );
      agreed = λ k x e. ground (
        arith,
        settled_cases k x e,
        h.agreed k x,
        apply_refund_ok now row.refund.money.amount intent intent' applied,
      );
      within = λ k x e.
          ground
            (arith, settled_cases k x e, within-append k x, within-append intent.id intent found);
    }
