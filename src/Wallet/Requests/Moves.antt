-- ===== src/Wallet/Requests/Moves.antt =====
-- The requests of payfund_app/modules/wallet that transfer and convert money maintain what the ledger does.
use diddi_pay_backend.Prelude.{ℕ, refl, Bool, String, Option, none, some}
use diddi_pay_backend.Prelude.Int.{ℤ}
use diddi_pay_backend.Prelude.Decimals.{Decimal}
use diddi_pay_backend.Wallet.Money.{Money, Currency}
use diddi_pay_backend.Wallet.Entities.{TransactionType}
use diddi_pay_backend.Wallet.Store.{
  Store, Account, Transaction, CurrencyConversion, ExchangeRate, Action,
}
use diddi_pay_backend.Wallet.Store.Maintains.{Maintains, maintains_rules}
use diddi_pay_backend.Wallet.Gateways.{Environment}
use diddi_pay_backend.Wallet.UseCases.Proofs.{StepUpProof}
use diddi_pay_backend.Wallet.UseCases.Payments.{
  TransferResult, replay_p2p, unless_replayed, transferred, send_p2p, transferer_p2p,
  set_business_reference, pay, payer_marchand,
}
use diddi_pay_backend.Wallet.Exchange.{
  compte_de_position, position_or, add_conversion, move_both, convertir, quote_rate, add_rate,
}
use diddi_pay_backend.Wallet.Service.{move, debiter, crediter, ouvrir_compte_technique}
use diddi_pay_backend.Wallet.Requests.Laws.{Invariant, Frames-Maintains}
use diddi_pay_backend.Wallet.Requests.Accounts.{
  frame_rules, compte_de-Maintains, publish_completed-Maintains, require_transfer_step_up-Maintains,
}
use diddi_pay_backend.Wallet.Requests.Pins.{verify_pin-Maintains}

module _ {I : Store → Type 0} (laws : Invariant I) where
  module _ (env : Environment) where
    transferred-Maintains :
        (amount : Money) (outcome : Transaction × Bool)
        → Maintains I (transferred env amount outcome)
    transferred-Maintains amount (t, replayed) =
        search (maintains_rules, publish_completed-Maintains laws) depth 8

    replay_p2p-Maintains :
        (source destination : Account) (amount : Money) (t : Transaction)
        → Maintains I (replay_p2p source destination amount t)
    unfolding replay_p2p
    replay_p2p-Maintains source destination amount t = search maintains_rules depth 10

    send_p2p-Maintains :
        (user_id : ℕ) (amount : ℤ) (proof : Option StepUpProof) (key : String)
        (source destination : Account) (m : Money)
        → Maintains I (send_p2p env user_id amount proof key source destination m)
    unfolding send_p2p
    send_p2p-Maintains user_id amount proof key source destination m =
        search
          (
            maintains_rules,
            require_transfer_step_up-Maintains laws,
            laws.transfers,
            transferred-Maintains,
          )
          depth 12

    unless_replayed-Maintains :
        (o : Option Transaction) (replay : Transaction → Action TransferResult)
        (m : Action TransferResult)
        → ((t : Transaction) → Maintains I (replay t))
        → Maintains I m
        → Maintains I (unless_replayed o replay m)
    unless_replayed-Maintains none replay m h k = record { at = k.at }
    unless_replayed-Maintains (some t) replay m h k = record { at = (h t).at }

    pub transferer_p2p-Maintains :
        (user_id : ℕ) (phone : String) (amount : ℤ) (pin : String) (proof : Option StepUpProof)
        (key : String)
        → Maintains I (transferer_p2p env user_id phone amount pin proof key)
    unfolding transferer_p2p
    transferer_p2p-Maintains user_id phone amount pin proof key =
        search
          (
            maintains_rules,
            compte_de-Maintains laws,
            verify_pin-Maintains laws,
            unless_replayed-Maintains,
            replay_p2p-Maintains,
            send_p2p-Maintains,
          )
          depth 40

    set_business_reference-Maintains :
        (reference : Option String) (t : Transaction)
        → Maintains I (set_business_reference env reference t)
    set_business_reference-Maintains none t = record { at = λ s h. h }
    set_business_reference-Maintains (some reference) t =
        search (Frames-Maintains laws, frame_rules)

    pay-Maintains :
        (source destination : Account) (m : Money) (origin reference : Option String) (key : String)
        → Maintains I (pay env source destination m origin reference key)
    unfolding pay
    pay-Maintains source destination m origin reference key =
        search
          (maintains_rules, laws.transfers, set_business_reference-Maintains, transferred-Maintains)
          depth 12

    pub payer_marchand-Maintains :
        (user_id merchant_id : ℕ) (amount : ℤ) (pin : String) (origin reference : Option String)
        (key : String)
        → Maintains I (payer_marchand env user_id merchant_id amount pin origin reference key)
    unfolding payer_marchand
    payer_marchand-Maintains user_id merchant_id amount pin origin reference key =
        search (maintains_rules, compte_de-Maintains laws, verify_pin-Maintains laws, pay-Maintains)
          depth 40

  move-Maintains :
      (from to : ℕ) (amount : ℤ) (reference key : String) (type : TransactionType)
      (origin : Option String)
      → Maintains I (move from to amount reference key type origin)
  unfolding move
  move-Maintains from to amount reference key type origin =
      search (maintains_rules, laws.transfers, Frames-Maintains laws, frame_rules) depth 14

  pub debiter-Maintains :
      (from to : ℕ) (amount : ℤ) (reference key : String) (type : TransactionType)
      (origin : Option String)
      → Maintains I (debiter from to amount reference key type origin)
  unfolding debiter
  debiter-Maintains from to = move-Maintains from to

  pub crediter-Maintains :
      (to from : ℕ) (amount : ℤ) (reference key : String) (type : TransactionType)
      (origin : Option String)
      → Maintains I (crediter to from amount reference key type origin)
  unfolding crediter
  crediter-Maintains to from = move-Maintains from to

  pub ouvrir_compte_technique-Maintains :
      (reference : String) → Maintains I (ouvrir_compte_technique reference)
  unfolding ouvrir_compte_technique
  ouvrir_compte_technique-Maintains reference =
      search (maintains_rules, Frames-Maintains laws, frame_rules) depth 10

  compte_de_position-Maintains : (currency : Currency) → Maintains I (compte_de_position currency)
  unfolding compte_de_position
  compte_de_position-Maintains currency =
      search (maintains_rules, position_or-Maintains, Frames-Maintains laws, frame_rules) depth 12
    where
      position_or-Maintains :
          (o : Option Account) (m : Action Account) → Maintains I m → Maintains I (position_or o m)
      position_or-Maintains none m h = record { at = h.at }
      position_or-Maintains (some a) m h = record { at = λ s i. i }

  add_conversion-Maintains : (row : CurrencyConversion) → Maintains I (add_conversion row)
  unfolding add_conversion
  add_conversion-Maintains row =
      Frames-Maintains laws _ (record { entries = λ s. refl; pins = λ s. refl })

  pub convertir-Maintains :
      (source_id target_id : ℕ) (amount : Money) (key : String)
      → Maintains I (convertir source_id target_id amount key)
  unfolding convertir move_both
  convertir-Maintains source_id target_id amount key =
      search
        (maintains_rules, compte_de_position-Maintains, laws.transfers, add_conversion-Maintains)
        depth 60

  add_rate-Maintains : (row : ExchangeRate) → Maintains I (add_rate row)
  unfolding add_rate
  add_rate-Maintains row =
      Frames-Maintains laws _ (record { entries = λ s. refl; pins = λ s. refl })

  pub quote_rate-Maintains :
      (base quote : Currency) (rate : Decimal) (source : Option String)
      → Maintains I (quote_rate base quote rate source)
  unfolding quote_rate
  quote_rate-Maintains base quote rate source = search (maintains_rules, add_rate-Maintains)
