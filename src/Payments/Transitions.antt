-- ===== src/Payments/Transitions.antt =====
-- The transition tables of payfund_app/modules/payments/domain/entities.py.
use diddi_pay_backend.Prelude.{List, [], ◌∷◌}
use diddi_pay_backend.Payments.Status.{PaymentIntentStatus, AttemptStatus, RefundStatus}

-- `_INTENT_TRANSITIONS[status]`
abbrev pub intent_transitions : PaymentIntentStatus → List PaymentIntentStatus
intent_transitions PaymentIntentStatus.processing =
    PaymentIntentStatus.requires_action ∷ PaymentIntentStatus.succeeded ∷ PaymentIntentStatus.failed
    ∷ PaymentIntentStatus.cancelled ∷ []
intent_transitions PaymentIntentStatus.requires_action =
    PaymentIntentStatus.processing ∷ PaymentIntentStatus.succeeded ∷ PaymentIntentStatus.failed
    ∷ PaymentIntentStatus.cancelled ∷ []
intent_transitions PaymentIntentStatus.failed = PaymentIntentStatus.processing ∷ []
intent_transitions PaymentIntentStatus.succeeded =
    PaymentIntentStatus.partially_refunded ∷ PaymentIntentStatus.refunded ∷ []
intent_transitions PaymentIntentStatus.partially_refunded =
    PaymentIntentStatus.partially_refunded ∷ PaymentIntentStatus.refunded ∷ []
intent_transitions PaymentIntentStatus.cancelled = []
intent_transitions PaymentIntentStatus.refunded = []

-- `_ATTEMPT_TRANSITIONS[status]`
abbrev pub attempt_transitions : AttemptStatus → List AttemptStatus
attempt_transitions AttemptStatus.pending =
    AttemptStatus.requires_action ∷ AttemptStatus.processing ∷ AttemptStatus.succeeded
    ∷ AttemptStatus.failed ∷ AttemptStatus.cancelled ∷ AttemptStatus.unknown ∷ []
attempt_transitions AttemptStatus.requires_action =
    AttemptStatus.processing ∷ AttemptStatus.succeeded ∷ AttemptStatus.failed
    ∷ AttemptStatus.cancelled ∷ AttemptStatus.unknown ∷ []
attempt_transitions AttemptStatus.processing =
    AttemptStatus.succeeded ∷ AttemptStatus.failed ∷ AttemptStatus.unknown ∷ []
attempt_transitions AttemptStatus.unknown =
    AttemptStatus.processing ∷ AttemptStatus.succeeded ∷ AttemptStatus.failed ∷ []
attempt_transitions AttemptStatus.succeeded = []
attempt_transitions AttemptStatus.failed = []
attempt_transitions AttemptStatus.cancelled = []

-- `_REFUND_TRANSITIONS[status]`
abbrev pub refund_transitions : RefundStatus → List RefundStatus
refund_transitions RefundStatus.pending =
    RefundStatus.processing ∷ RefundStatus.succeeded ∷ RefundStatus.failed ∷ []
refund_transitions RefundStatus.processing = RefundStatus.succeeded ∷ RefundStatus.failed ∷ []
refund_transitions RefundStatus.succeeded = []
refund_transitions RefundStatus.failed = []
