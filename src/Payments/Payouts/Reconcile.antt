-- ===== src/Payments/Payouts/Reconcile.antt =====
-- `PayoutUseCases.reconcile` of payfund_app/modules/payments/application/payouts.py.
use diddi_pay_backend.Prelude.{
  ℕ, ◌+◌, ◌-◌, Bool, not, ◌&&◌, List, [], length, leb, ◌is◌, if◌then◌else◌,
}
use diddi_pay_backend.Payments.Status.{PayoutStatus, payout_enum}
use diddi_pay_backend.Payments.Errors.{
  Result, ok, err, processor_routing_error, processor_call_uncertain, os_error,
}
use diddi_pay_backend.Payments.Entities.{Payout}
use diddi_pay_backend.Payments.Database.{Database}
use diddi_pay_backend.Payments.Session.{
  Action, ◌>>=◌, ◌>>◌, pure, raise, lift, gets, utc_now, commit, when, for_each,
}
use diddi_pay_backend.Payments.Ports.{PaymentProcessorPort, PayoutResult}
use diddi_pay_backend.Payments.Routing
use diddi_pay_backend.Payments.Accounting.{record_payout_success}
use diddi_pay_backend.Payments.Repositories.Payouts
use diddi_pay_backend.Payments.Payouts.{PayoutReconciliationSummary, answered, enqueue_status}

abbrev one_pending : PayoutReconciliationSummary → PayoutReconciliationSummary
one_pending t = record t { pending = t.pending + 1 }

-- The counter of a status that was applied.
abbrev pub count_payout : PayoutStatus → PayoutReconciliationSummary → PayoutReconciliationSummary
count_payout PayoutStatus.succeeded t = record t { succeeded = t.succeeded + 1 }
count_payout PayoutStatus.failed t = record t { failed = t.failed + 1 }
count_payout _ t = one_pending t

module _ (has_accounting : Bool) where
  -- The writes of a round, from the payout as it was and as it is.
  unfoldable pub record_answer : Payout → Payout → Action (Unit {0})
  record_answer previous p = do
    Payouts.save p
    when (p.status is PayoutStatus.succeeded && has_accounting) (record_payout_success p)
    when (not (p.status is previous.status)) (enqueue_status p)

  -- A payout that stays as it is.
  abbrev postponed : PayoutReconciliationSummary → Action PayoutReconciliationSummary
  postponed t = commit >> pure (one_pending t)

  abbrev with_result :
      Payout
      → PayoutReconciliationSummary
      → Result PayoutResult
      → Action PayoutReconciliationSummary
  with_result p t (ok result) = do
    now ← utc_now
    p' ← lift (answered now result p)
    record_answer p p'
    commit
    pure (count_payout p'.status t)
  with_result p t (err (processor_call_uncertain reference message)) = postponed t
  with_result p t (err (os_error message)) = postponed t
  with_result p t (err e) = raise e

  abbrev with_processor :
      Payout
      → PayoutReconciliationSummary
      → Result PaymentProcessorPort
      → Action PayoutReconciliationSummary
  with_processor p t (ok processor) = with_result p t (processor.verify_payout p.provider_reference)
  with_processor p t (err (processor_routing_error message)) = postponed t
  with_processor p t (err e) = raise e

  -- One round of the loop of `reconcile`, with the counters before and after it.
  unfoldable pub reconcile_payout :
      Routing.ProcessorRegistry
      → Payout
      → PayoutReconciliationSummary
      → Action PayoutReconciliationSummary
  reconcile_payout registry p t = with_processor p t (Routing.get p.processor registry)

  abbrev candidates : ℕ → ℕ → ℕ → Database → List Payout
  candidates now minimum_age_seconds limit db =
      if leb minimum_age_seconds now
      then Payouts.pending_for_reconciliation (now - minimum_age_seconds) limit db
      else []

  -- `reconcile`
  unfoldable pub reconcile : Routing.ProcessorRegistry → ℕ → ℕ → Action PayoutReconciliationSummary
  reconcile registry minimum_age_seconds limit = do
    now ← utc_now
    payouts ← gets (candidates now minimum_age_seconds limit)
    for_each payouts (record { scanned = length payouts; succeeded = 0; failed = 0; pending = 0 })
        (reconcile_payout registry)
