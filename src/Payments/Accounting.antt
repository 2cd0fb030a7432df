-- ===== src/Payments/Accounting.antt =====
-- payfund_app/modules/payments/application/accounting.py and success.py: double-entry policies, and the
-- one business effect of a confirmed payment.
pub mod Frame
use diddi_pay_backend.Prelude.{zero, Bool, ◌||◌, String, [], ◌∷◌, if◌then◌else◌, to_text}
use diddi_pay_backend.Prelude.Int.{ℤ, pos, negsuc, ltb_ℤ}
use diddi_pay_backend.Payments.Status.{intent_enum}
use diddi_pay_backend.Payments.Errors.{value_error}
use diddi_pay_backend.Payments.Entities.{PaymentIntent, PaymentAttempt, Refund, Payout}
use diddi_pay_backend.Payments.Payload.{
  EventReference, refund_reference, payout_succeeded, settlement_reference, text, number, uuid,
  reference,
}
use diddi_pay_backend.Payments.Database.{
  capture, processor_fee, refund, settlement, payout, processor_receivable, module_payable,
  processor_balance, processor_fee_expense, bank_cash,
}
use diddi_pay_backend.Payments.Session.{Action, ◌>>=◌, ◌>>◌, pure, raise, gets, when, branch}
use diddi_pay_backend.Payments.Repositories.Outbox
use diddi_pay_backend.Payments.Repositories.Ledger

abbrev pub done : Action (Unit {0})
done = pure tt

-- The journal of a fee, if it is positive.
unfoldable pub post_fee : ℤ → PaymentIntent → PaymentAttempt → EventReference → Action (Unit {0})
post_fee (pos zero) intent attempt event = done
post_fee (pos fee) intent attempt event =
    Ledger.post intent.id processor_fee event fee intent.money.currency processor_fee_expense
      (processor_receivable attempt.processor)
    >> done
post_fee (negsuc _) intent attempt event = done

-- `record_capture`
unfoldable pub record_capture :
    PaymentIntent → PaymentAttempt → EventReference → ℤ → Action (Unit {0})
record_capture intent attempt event fee = do
  Ledger.post intent.id capture event intent.money.amount intent.money.currency
      (processor_receivable attempt.processor) (module_payable intent.client_id)
  post_fee fee intent attempt event

-- `record_refund`; the refund is named apart from the journal type.
unfoldable pub record_refund : PaymentIntent → PaymentAttempt → Refund → Action (Unit {0})
record_refund intent attempt r = do
  Ledger.post intent.id refund (refund_reference r.id) r.money.amount r.money.currency
      (module_payable intent.client_id) (processor_receivable attempt.processor)
  done

abbrev post_settlement : ℤ → PaymentIntent → String → String → Action (Unit {0})
post_settlement (pos amount) intent processor bank_reference =
    Ledger.post intent.id settlement (settlement_reference bank_reference) amount
      intent.money.currency bank_cash (processor_receivable processor)
    >> done
post_settlement (negsuc _) intent processor bank_reference = raise value_error

abbrev is_not_positive : ℤ → Bool
is_not_positive amount = ltb_ℤ amount (pos 1)

-- `record_settlement`
unfoldable pub record_settlement : PaymentIntent → String → ℤ → String → Action (Unit {0})
record_settlement intent processor amount bank_reference = do
  summary ← gets (Ledger.summary intent.id)
  branch (is_not_positive amount || ltb_ℤ summary.outstanding amount) (raise value_error)
      (post_settlement amount intent processor bank_reference)

-- `PayoutAccountingService.record_success`
unfoldable pub record_payout_success : Payout → Action (Unit {0})
record_payout_success p = do
  Ledger.post_payout p.id payout (payout_succeeded p.id) p.money.amount p.money.currency
      (module_payable p.client_id) (processor_balance p.processor)
  done

-- The row that announces a confirmed payment.
unfoldable pub announce : PaymentIntent → EventReference → Action (Unit {0})
announce intent event = Outbox.enqueue intent.client_id "payment.succeeded" intent.id (
    ("event_id", reference event)
    ∷ ("payment_intent_id", uuid intent.id)
    ∷ ("business_reference", text intent.business_reference)
    ∷ ("amount", number (pos intent.money.amount))
    ∷ ("currency", text intent.money.currency)
    ∷ ("status", text (to_text intent.status))
    ∷ [])

-- `record_payment_success`; the flags say whether the outbox and the accounting service are wired.
unfoldable pub record_payment_success :
    Bool → Bool → PaymentIntent → PaymentAttempt → EventReference → ℤ → Action (Unit {0})
record_payment_success has_outbox has_accounting intent attempt event fee = do
  when has_outbox (announce intent event)
  when has_accounting (record_capture intent attempt event fee)
