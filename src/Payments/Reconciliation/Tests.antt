-- ===== src/Payments/Reconciliation/Tests.antt =====
-- A run of the reconciliation at a concrete input.
use diddi_pay_backend.Prelude.{[], ◌∷◌, true}
use diddi_pay_backend.Payments.Errors.{err, processor_call_uncertain}
use diddi_pay_backend.Payments.Database.{Database}
use diddi_pay_backend.Payments.Session.{begin}
use diddi_pay_backend.Payments.Routing.{ProcessorRegistry}
use diddi_pay_backend.Payments.Samples.{paystack, paid, digest, waiting_intent, waiting_attempt}
use diddi_pay_backend.Payments.Reconciliation.{candidates, run}
use diddi_pay_backend.Payments.Reconciliation.Totals.{IsTallied, run-IsTallied}

-- A processor that does not answer in time.
abbrev late : ProcessorRegistry
late =
    record {
      priority = 100;
      processor = record paystack {
        verify_payment = λ reference. err (processor_call_uncertain "ref-1" "late");
      };
    }
    ∷ []

abbrev waiting : Database
waiting = record paid { intents = waiting_intent ∷ []; attempts = waiting_attempt ∷ [] }

run-IsTallied_example :
    IsTallied digest true true late 10
      (candidates digest true true 30 5 10 waiting)
      (begin waiting 30 5)
      (run digest true true late 5 10 (begin waiting 30 5))
run-IsTallied_example = run-IsTallied digest true true late 5 10 (begin waiting 30 5)
