-- ===== src/Payments/Deliveries/Tests.antt =====
-- A delivery run at a concrete input.
use diddi_pay_backend.Prelude.{
  ℕ, ◌==◌, refl, String, str_eq, Option, none, some, [], ◌∷◌, if◌then◌else◌, inl, inr, Bool-cases,
}
use diddi_pay_backend.Payments.Errors.{ok, err, callback_delivery_failed}
use diddi_pay_backend.Payments.Database.{PaymentOutboxRecord, pending}
use diddi_pay_backend.Payments.Session.{Session, begin}
use diddi_pay_backend.Payments.Ports.{CallbackTarget}
use diddi_pay_backend.Payments.Samples.{paid}
use diddi_pay_backend.Payments.Deliveries.{Sender, run}
use diddi_pay_backend.Payments.Deliveries.Progress.{
  OnlyFails, IsComplete, run-IsComplete, claimed_rows,
}

-- The target refuses all rows but the seventh.
abbrev sending : Sender
sending target row = if row.id == 7 then ok tt else err (callback_delivery_failed "down")

sending-OnlyFails : OnlyFails sending
sending-OnlyFails target row = elim (Bool-cases (row.id == 7)) [
  | inl seventh ↦ rw seventh (inl refl)
  | inr other ↦ rw other (inr ("down", refl))
]

abbrev waiting_row : ℕ → String → PaymentOutboxRecord
waiting_row id client_id = record {
  id = id;
  client_id = client_id;
  event_type = "payment.succeeded";
  aggregate_id = 1;
  payload = [];
  status = pending;
  attempts = 0;
  last_error = none;
  next_attempt_at = 10;
  delivered_at = none;
  locked_at = none;
  created_at = 10;
}

abbrev fund_target : String → Option CallbackTarget
fund_target client =
    if str_eq client "fund" then some (record { url = "u"; secret = "s" }) else none

-- A row that is taken, one that is refused and one without a target.
abbrev full_outbox : Session
full_outbox =
    begin
      (record paid {
        outbox = waiting_row 7 "fund" ∷ waiting_row 8 "fund" ∷ waiting_row 9 "shop" ∷ [];
      })
      30 5

run-IsComplete_example :
    IsComplete sending fund_target 100
      (claimed_rows 100 full_outbox)
      (run sending fund_target 100 full_outbox)
run-IsComplete_example = run-IsComplete sending fund_target sending-OnlyFails 100 full_outbox
