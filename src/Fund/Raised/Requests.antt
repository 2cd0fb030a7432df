-- ===== src/Fund/Raised/Requests.antt =====
-- The requests of payfund_app/modules/fund, as steps: each runs in a session of its own, which
-- payfund_app/core/database.py rolls back if it raises.
use diddi_pay_backend.Prelude.{ℕ, String, Option}
use diddi_pay_backend.Prelude.Int.{ℤ}
use diddi_pay_backend.Prelude.Actions.{request}
use diddi_pay_backend.Prelude.Actions.Rules.{request-Maintains}
use diddi_pay_backend.Fund.Loan.{Date}
use diddi_pay_backend.Fund.Tables.{Tables}
use diddi_pay_backend.Fund.Ports.{WalletServicePort, ScoringPort, PaymentOrchestratorPort}
use diddi_pay_backend.Fund.Campaigns.{creer_campagne, investir}
use diddi_pay_backend.Fund.Loans.{demander, decaisser, rembourser}
use diddi_pay_backend.Fund.Collections.{InvestmentCommand, start_investment}
use diddi_pay_backend.Fund.Collections.Events.{EventData, apply_event}
use diddi_pay_backend.Fund.Raised.{IsRaised}
use diddi_pay_backend.Fund.Raised.UseCases.{
  creer_campagne-Maintains, investir-Maintains, demander-Maintains, decaisser-Maintains,
  rembourser-Maintains,
}
use diddi_pay_backend.Fund.Raised.Payments.{start_investment-Maintains, apply_event-IsRaised}

-- One request; the wallet, the scores and the payments behind it may answer anything.
pub data FundRequest {W : Type 0} (id_text : ℕ → String) : Tables W → Tables W → Type 0 where
  opens_campaign :
      {s : Tables W} (wallet : WalletServicePort W) (user_id : ℕ) (title : String) (goal : ℤ)
      (currency : String)
      → FundRequest id_text s
          (request (creer_campagne wallet id_text user_id title goal currency) s).1
  invests :
      {s : Tables W} (wallet : WalletServicePort W) (campaign_id user_id : ℕ) (amount : ℤ)
      (pin key : String)
      → FundRequest id_text s
          (request (investir wallet id_text campaign_id user_id amount pin key) s).1
  asks_loan :
      {s : Tables W} (wallet : WalletServicePort W) (scoring : ScoringPort)
      (campaign_id user_id : ℕ) (amount months : ℤ)
      → FundRequest id_text s
          (request (demander wallet scoring id_text campaign_id user_id amount months) s).1
  disburses :
      {s : Tables W} (wallet : WalletServicePort W) (scoring : ScoringPort) (loan_id : ℕ)
      (today : Date)
      → FundRequest id_text s (request (decaisser wallet scoring id_text loan_id today) s).1
  repays :
      {s : Tables W} (wallet : WalletServicePort W) (scoring : ScoringPort) (loan_id user_id : ℕ)
      (amount : ℤ) (pin key : String)
      → FundRequest id_text s
          (request (rembourser wallet scoring id_text loan_id user_id amount pin key) s).1
  collects :
      {s : Tables W} (payments : Option PaymentOrchestratorPort) (command : InvestmentCommand)
      → FundRequest id_text s (request (start_investment payments id_text command) s).1
  receives :
      {s : Tables W} (event_id : ℕ) (event_type : String) (event : EventData)
      → FundRequest id_text s (apply_event event_id event_type event s).1

-- Tables that requests lead to from ones where each campaign has raised the sum of its investments.
pub data Reached {W : Type 0} (id_text : ℕ → String) : Tables W → Type 0 where
  start : {s : Tables W} → IsRaised s → Reached id_text s
  next : {s s' : Tables W} → Reached id_text s → FundRequest id_text s s' → Reached id_text s'

module _ {W : Type 0} (id_text : ℕ → String) where
  step : {s s' : Tables W} → FundRequest id_text s s' → IsRaised s → IsRaised s'
  step (opens_campaign w u t g c) =
      request-Maintains _ (creer_campagne-Maintains w id_text u t g c) _
  step (invests w c u m p k) = request-Maintains _ (investir-Maintains w id_text c u m p k) _
  step (asks_loan w sc c u m d) = request-Maintains _ (demander-Maintains w id_text sc c u m d) _
  step (disburses w sc l t) = request-Maintains _ (decaisser-Maintains w id_text sc l t) _
  step (repays w sc l u m p k) = request-Maintains _ (rembourser-Maintains w id_text sc l u m p k) _
  step (collects p c) = request-Maintains _ (start_investment-Maintains p id_text c) _
  step (receives e t d) = apply_event-IsRaised e t d _

  -- In all tables that requests of the fund lead to from ones where every campaign has raised the
  -- sum of its investments, with identifiers below the next one, this still holds, whatever the
  -- wallet, the scores and the payments behind them answer.
  pub Reached-IsRaised : {s : Tables W} → Reached id_text s → IsRaised s
  Reached-IsRaised (start h) = h
  Reached-IsRaised (next r q) = step q (Reached-IsRaised r)
