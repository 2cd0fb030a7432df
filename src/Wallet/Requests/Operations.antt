-- ===== src/Wallet/Requests/Operations.antt =====
-- The deposits and withdrawals of payfund_app/modules/wallet and their settlement maintain what the ledger
-- does.
use diddi_pay_backend.Prelude.{ℕ, Bool, String, Option, none, some}
use diddi_pay_backend.Prelude.Int.{ℤ}
use diddi_pay_backend.Wallet.Money.{Money}
use diddi_pay_backend.Wallet.Store.{Store, Account, Transaction, Action}
use diddi_pay_backend.Wallet.Store.Maintains.{Maintains, maintains_rules}
use diddi_pay_backend.Wallet.Gateways.{Environment, Gateway, GatewayStatus, GatewayOperation}
use diddi_pay_backend.Wallet.UseCases.Operations.{
  post_deposit, publish_money, confirm, confirmer_operation, fail, echouer_operation,
  settle_at_once, start_deposit, new_deposit, replayed_deposit, deposer, start_withdrawal,
  new_withdrawal, replayed_withdrawal, retirer, DepositResult,
}
use diddi_pay_backend.Wallet.UseCases.Reconcile.{
  settle_status, conclude, interrogate, with_reference, with_transaction, reconcile_transaction,
}
use diddi_pay_backend.Wallet.Requests.Laws.{Invariant, Frames-Maintains}
use diddi_pay_backend.Wallet.Requests.Accounts.{
  frame_rules, compte_de-Maintains, publish_completed-Maintains, compte_suspense-Maintains,
}
use diddi_pay_backend.Wallet.Requests.Pins.{verify_pin-Maintains}

module _ {I : Store → Type 0} (laws : Invariant I) where
  post_deposit-Maintains : (t : Transaction) (mode : String) → Maintains I (post_deposit t mode)
  unfolding post_deposit
  post_deposit-Maintains t mode =
      search (maintains_rules, compte_suspense-Maintains laws, laws.posts_on) depth 14

  pub echouer_operation-Maintains :
      (id : ℕ) (mode : String) → Maintains I (echouer_operation id mode)
  unfolding echouer_operation fail
  echouer_operation-Maintains id mode =
      search (maintains_rules, laws.reverses, Frames-Maintains laws, frame_rules) depth 20

  module _ (env : Environment) where
    publish_money-Maintains :
        (has_bus : Bool) (t : Transaction) (o : Option Money)
        → Maintains I (publish_money has_bus t o)
    publish_money-Maintains has_bus t none = record { at = λ s h. h }
    publish_money-Maintains has_bus t (some m) = publish_completed-Maintains laws has_bus t m

    pub confirmer_operation-Maintains :
        (id : ℕ) (mode : String) → Maintains I (confirmer_operation env id mode)
    unfolding confirmer_operation confirm
    confirmer_operation-Maintains id mode =
        search
          (
            maintains_rules,
            post_deposit-Maintains,
            publish_money-Maintains,
            Frames-Maintains laws,
            frame_rules,
          )
          depth 20

    settle_at_once-Maintains :
        (id : ℕ) (mode : String) (status : GatewayStatus)
        → Maintains I (settle_at_once env id mode status)
    unfolding settle_at_once
    settle_at_once-Maintains id mode GatewayStatus.pending = record { at = λ s h. h }
    settle_at_once-Maintains id mode GatewayStatus.completed =
        search (maintains_rules, confirmer_operation-Maintains)
    settle_at_once-Maintains id mode GatewayStatus.failed =
        search (maintains_rules, echouer_operation-Maintains)

    start_deposit-Maintains :
        (g : Gateway) (provider phone : String) (email : Option String) (m : Money) (id : ℕ)
        → Maintains I (start_deposit env g provider phone email m id)
    unfolding start_deposit
    start_deposit-Maintains g provider phone email m id =
        search (maintains_rules, settle_at_once-Maintains, Frames-Maintains laws, frame_rules) depth
          20

    new_deposit-Maintains :
        (user_id : ℕ) (provider : String) (amount : ℤ) (phone : String) (email : Option String)
        (key : String)
        → Maintains I (new_deposit env user_id provider amount phone email key)
    unfolding new_deposit
    new_deposit-Maintains user_id provider amount phone email key =
        search
          (
            maintains_rules,
            compte_de-Maintains laws,
            compte_suspense-Maintains laws,
            start_deposit-Maintains,
            Frames-Maintains laws,
            frame_rules,
          )
          depth 40

    replayed_deposit-Maintains :
        (o : Option Transaction) (m : Action DepositResult)
        → Maintains I m
        → Maintains I (replayed_deposit env o m)
    replayed_deposit-Maintains none m h = record { at = h.at }
    replayed_deposit-Maintains (some t) m h = record { at = λ s i. i }

    pub deposer-Maintains :
        (user_id : ℕ) (provider : String) (amount : ℤ) (phone : String) (email : Option String)
        (key : String)
        → Maintains I (deposer env user_id provider amount phone email key)
    unfolding deposer
    deposer-Maintains user_id provider amount phone email key =
        search (maintains_rules, replayed_deposit-Maintains, new_deposit-Maintains)

    start_withdrawal-Maintains :
        (g : Gateway) (provider phone : String) (m : Money) (id : ℕ)
        → Maintains I (start_withdrawal env g provider phone m id)
    unfolding start_withdrawal
    start_withdrawal-Maintains g provider phone m id =
        search (maintains_rules, settle_at_once-Maintains, Frames-Maintains laws, frame_rules) depth
          20

    new_withdrawal-Maintains :
        (a : Account) (provider : String) (amount : ℤ) (phone key : String)
        → Maintains I (new_withdrawal env a provider amount phone key)
    unfolding new_withdrawal
    new_withdrawal-Maintains a provider amount phone key =
        search
          (
            maintains_rules,
            compte_suspense-Maintains laws,
            laws.transfers,
            start_withdrawal-Maintains,
            Frames-Maintains laws,
            frame_rules,
          )
          depth 40

    replayed_withdrawal-Maintains :
        (o : Option Transaction) (m : Action Transaction)
        → Maintains I m
        → Maintains I (replayed_withdrawal env o m)
    replayed_withdrawal-Maintains none m h = record { at = h.at }
    replayed_withdrawal-Maintains (some t) m h = record { at = λ s i. i }

    pub retirer-Maintains :
        (user_id : ℕ) (provider : String) (amount : ℤ) (phone pin key : String)
        → Maintains I (retirer env user_id provider amount phone pin key)
    unfolding retirer
    retirer-Maintains user_id provider amount phone pin key =
        search
          (
            maintains_rules,
            compte_de-Maintains laws,
            verify_pin-Maintains laws,
            replayed_withdrawal-Maintains,
            new_withdrawal-Maintains,
          )
          depth 12

    settle_status-Maintains :
        (t : Transaction) (mode : String) (o : GatewayOperation) (status : GatewayStatus)
        → Maintains I (settle_status env t mode o status)
    settle_status-Maintains t mode o GatewayStatus.completed =
        search (maintains_rules, confirmer_operation-Maintains)
    settle_status-Maintains t mode o GatewayStatus.failed =
        search (maintains_rules, echouer_operation-Maintains)
    settle_status-Maintains t mode o GatewayStatus.pending = record { at = λ s h. h }

    conclude-Maintains :
        (t : Transaction) (mode : String) (o : GatewayOperation)
        → Maintains I (conclude env t mode o)
    unfolding conclude
    conclude-Maintains t mode o = settle_status-Maintains t mode o o.status

    interrogate-Maintains :
        (t : Transaction) (reference : String) → Maintains I (interrogate env t reference)
    unfolding interrogate
    interrogate-Maintains t reference =
        search (maintains_rules, Frames-Maintains laws, frame_rules, conclude-Maintains) depth 14

    with_transaction-Maintains : (o : Option Transaction) → Maintains I (with_transaction env o)
    with_transaction-Maintains none = record { at = λ s h. h }
    with_transaction-Maintains (some t) = of_reference t.provider_reference
      where
        of_reference : (o : Option String) → Maintains I (with_reference env t o)
        of_reference none = record { at = λ s h. h }
        of_reference (some reference) = search (maintains_rules, interrogate-Maintains)

    pub reconcile_transaction-Maintains : (id : ℕ) → Maintains I (reconcile_transaction env id)
    unfolding reconcile_transaction
    reconcile_transaction-Maintains id = search (maintains_rules, with_transaction-Maintains)
