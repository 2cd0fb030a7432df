-- ===== src/Fund/Tests.antt =====
-- The funding module at concrete inputs.
use diddi_pay_backend.Wallet.UseCases.{compte_de, draw, provisionner_compte}
use diddi_pay_backend.Wallet.UseCases.Pin.{
  accept_pin, hash_pin, is_valid, legacy_pin_hash, refuse_pin, verifier_pin_utilisateur, verify_pin,
}
use diddi_pay_backend.Wallet.Store.{create_account}
use diddi_pay_backend.Wallet.Pins.{clear_lock, get_pin, register_failure, store_hash}
use diddi_pay_backend.Prelude.{starts_with}
use diddi_pay_backend.Fund.Repositories.Schedules.{
  ajouter_echeances, changer_statut, save_loan, tracer_statut,
}
use diddi_pay_backend.Wallet.Entities.{assert_balanced, sum_lines}
use diddi_pay_backend.Wallet.Ledger.{
  add_entries, ensure_sufficient, load_creditable, load_debitable, post, transfer, write,
}
use diddi_pay_backend.Wallet.Money.{covers, currency_of, money}
use diddi_pay_backend.Wallet.Service.{
  compte_de_utilisateur, crediter, debiter, move, ouvrir_compte_technique, solde,
}
use diddi_pay_backend.Fund.Loans.{disburse, mark_disbursed}
use diddi_pay_backend.Prelude.{◌≡◌, refl, some, arith, concat}
use diddi_pay_backend.Prelude.Int.{pos, ◌+ℤ◌, ◌-ℤ◌}
use diddi_pay_backend.Prelude.Actions.{ok, err, request}
use diddi_pay_backend.Prelude.Actions.Yields.{Ending}
use diddi_pay_backend.Wallet.Store.{
  get_by_user, get_account, get_by_idempotency_key, create_transaction, add_entry, balance, assign,
}
use diddi_pay_backend.Wallet.UseCases.Samples.{environment}
use diddi_pay_backend.Fund.Loan.{
  build_schedule, installments, add_months, days_in_month, is_leap_year,
}
use diddi_pay_backend.Fund.Status.{LoanStatus}
use diddi_pay_backend.Fund.Tables.{FundError, loan_already_disbursed, Loan}
use diddi_pay_backend.Fund.Ports.Contract.{MovesMoney}
use diddi_pay_backend.Fund.WalletClient.Contract.{get_wallet_service-MovesMoney}
use diddi_pay_backend.Fund.WalletClient.{get_wallet_service}
use diddi_pay_backend.Fund.Repositories.{get_campaign, create_investment, save_campaign}
use diddi_pay_backend.Fund.Repositories.Schedules.{get_loan}
use diddi_pay_backend.Fund.Repositories.Orders.{by_payment_intent, save_order, add_once}
use diddi_pay_backend.Fund.Loans.{decaisser, repay, disbursement_key}
use diddi_pay_backend.Fund.Loans.Disbursed.{decaisser-once}
use diddi_pay_backend.Fund.Loans.Stuck.{decaisser-stuck}
use diddi_pay_backend.Fund.Loans.Credited.{IsCredited}
use diddi_pay_backend.Fund.Loans.Pays.{Settles, decaisser-Settles, repay-Settles}
use diddi_pay_backend.Fund.Collections.Events.{
  EventData, processed, duplicate, first_event, apply_to_order, settle_investment, apply_event,
}
use diddi_pay_backend.Fund.Collections.Once.{apply_event-once}
use diddi_pay_backend.Fund.Raised.{IsRaised}
use diddi_pay_backend.Fund.Raised.Requests.{start, next, receives, Reached-IsRaised}
use diddi_pay_backend.Fund.Samples.{
  campaign, loan, small_loan, today, installment, tables, wallet, scoring, id_text,
}

abbrev event : EventData
event = record {
  payment_intent_id = 70;
  business_reference = some "fund:investment:20:key";
  amount = pos 200;
  currency = some "XOF";
  status = some "succeeded";
}

tables-IsRaised : IsRaised tables
unfolding ◌+ℤ◌
tables-IsRaised = record {
  raised = (refl, tt);
  campaigns_below = (omega arith, tt);
  investments_below = (omega arith, tt);
}

Reached-IsRaised_example : IsRaised (apply_event 1 "payment.succeeded" event tables).1
Reached-IsRaised_example =
    Reached-IsRaised id_text
      (next (start {s = tables} tables-IsRaised) (receives 1 "payment.succeeded" event))

event_applies :
    apply_event 1 "payment.succeeded" event tables
    ≡ (ok processed, (apply_event 1 "payment.succeeded" event tables).1)
unfolding apply_event request add_once first_event by_payment_intent apply_to_order
    settle_investment get_campaign create_investment save_campaign save_order
event_applies = refl

apply_event-once_example :
    apply_event 1 "payment.failed" event (apply_event 1 "payment.succeeded" event tables).1
    ≡ (ok duplicate, (apply_event 1 "payment.succeeded" event tables).1)
apply_event-once_example =
    apply_event-once 1 "payment.succeeded" "payment.failed" event event processed tables
      (apply_event 1 "payment.succeeded" event tables).1 event_applies

found_campaign : get_campaign 20 tables ≡ some campaign
unfolding get_campaign
found_campaign = refl

found_loan : get_loan 22 tables ≡ some loan
unfolding get_loan
found_loan = refl

found_small : get_loan 23 tables ≡ some small_loan
unfolding get_loan
found_small = refl

decaisser-stuck_example :
    (e : FundError) × (request (decaisser wallet scoring id_text 23 today) tables ≡ (err e, tables))
decaisser-stuck_example =
    decaisser-stuck wallet scoring id_text 23 today small_loan tables found_small (omega arith)
      (omega arith)

get_wallet_service-MovesMoney_example : MovesMoney (get_wallet_service environment)
get_wallet_service-MovesMoney_example = get_wallet_service-MovesMoney environment

decaisser-Settles_example :
    Ending
      (Settles wallet
        (get_wallet_service-MovesMoney environment)
        7
        (λ account. 3)
        (λ account. account)
        (pos 600)
        (disbursement_key wallet scoring id_text 22)
        tables.wallet)
      (decaisser wallet scoring id_text 22 today tables)
decaisser-Settles_example =
    decaisser-Settles wallet (get_wallet_service-MovesMoney environment) scoring id_text 22 today
      loan campaign tables found_loan found_campaign

repay-Settles_example :
    Ending
      (λ answer s'.
        Settles wallet
          (get_wallet_service-MovesMoney environment)
          7
          (λ account. account)
          (λ account. 3)
          (pos 60)
          "repay-1"
          tables.wallet
          answer
          s'
        × IsCredited installment (pos 60) answer s')
      (repay wallet scoring id_text loan installment (pos 60) "repay-1" tables)
repay-Settles_example =
    repay-Settles wallet (get_wallet_service-MovesMoney environment) scoring id_text loan
      installment (pos 60) "repay-1" campaign tables found_campaign

-- The loan after its disbursement, by the wallet's transaction 5.
abbrev paid_loan : Loan
paid_loan = record loan {
  status = LoanStatus.disbursed;
  disbursed_at = some 10;
  wallet_transaction_id = some 5;
}

loan_is_disbursed :
    decaisser wallet scoring id_text 22 today tables
    ≡ (ok paid_loan, (decaisser wallet scoring id_text 22 today tables).1)
unfolding decaisser get_loan disburse get_campaign get_wallet_service compte_de_utilisateur
    get_by_user crediter move money currency_of transfer get_by_idempotency_key concat
    load_debitable get_account load_creditable post assert_balanced add_months build_schedule
    days_in_month installments is_leap_year mark_disbursed ajouter_echeances changer_statut
    save_loan tracer_statut ◌+ℤ◌ ◌-ℤ◌ starts_with sum_lines add_entries ensure_sufficient write
    covers clear_lock get_pin register_failure store_hash debiter ouvrir_compte_technique solde
    add_entry assign balance create_account create_transaction accept_pin hash_pin is_valid
    legacy_pin_hash refuse_pin verifier_pin_utilisateur verify_pin compte_de draw
    provisionner_compte
loan_is_disbursed = refl

decaisser-once_example :
    decaisser wallet scoring id_text 22 today (decaisser wallet scoring id_text 22 today tables).1
    ≡ (err loan_already_disbursed, (decaisser wallet scoring id_text 22 today tables).1)
decaisser-once_example =
    decaisser-once wallet scoring id_text 22 today today paid_loan tables
      (decaisser wallet scoring id_text 22 today tables).1 loan_is_disbursed
