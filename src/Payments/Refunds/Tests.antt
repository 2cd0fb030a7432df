-- ===== src/Payments/Refunds/Tests.antt =====
-- Refunds at concrete inputs.
use diddi_pay_backend.Prelude.{none, arith, true}
use diddi_pay_backend.Prelude.Int.{pos}
use diddi_pay_backend.Payments.Session.{begin}
use diddi_pay_backend.Payments.Samples.{paid, registry, digest}
use diddi_pay_backend.Payments.Refunds.{CreateRefundCommand, create}
use diddi_pay_backend.Payments.Refunds.Cover.{IsCovered}
use diddi_pay_backend.Payments.Refunds.Safety.{EndsCovered, create-IsCovered}

abbrev partial : CreateRefundCommand
partial = record {
  client_id = "fund";
  payment_intent_id = 1;
  amount = pos 200;
  idempotency_key = "refund-1";
  reason = none;
}

paid-IsCovered : IsCovered 5 paid
paid-IsCovered = record {
  fresh = tt;
  recorded = λ k x e. ground arith;
  agreed = λ k x e. ground arith;
  within = λ k x e. ground arith;
}

create-IsCovered_example : EndsCovered (create digest registry true partial (begin paid 30 5))
create-IsCovered_example = create-IsCovered digest registry true partial paid 30 5 paid-IsCovered
