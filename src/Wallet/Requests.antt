-- ===== src/Wallet/Requests.antt =====
-- The requests that payfund_app/modules/wallet serves, as steps: each runs in a session of its own, which
-- payfund_app/core/database.py rolls back if it raises.
pub mod Laws
pub mod Accounts
pub mod Pins
pub mod Moves
pub mod Operations
pub mod Reached
pub mod ZeroSum
pub mod NeverLocked
use diddi_pay_backend.Prelude.{ℕ, String, Option}
use diddi_pay_backend.Prelude.Int.{ℤ}
use diddi_pay_backend.Prelude.Decimals.{Decimal}
use diddi_pay_backend.Wallet.Money.{Money, Currency}
use diddi_pay_backend.Wallet.Entities.{TransactionType}
use diddi_pay_backend.Wallet.Store.{Store, request}
use diddi_pay_backend.Wallet.Gateways.{Environment}
use diddi_pay_backend.Wallet.UseCases.{
  provisionner_compte, provisionner_compte_marchand, consulter_solde, consulter_transaction,
}
use diddi_pay_backend.Wallet.UseCases.Pin.{
  verifier_pin_utilisateur, define_pin, change_pin, reset_pin_with_recovery, admin_reset_pin,
}
use diddi_pay_backend.Wallet.UseCases.Proofs.{StepUpProof}
use diddi_pay_backend.Wallet.UseCases.Payments.{transferer_p2p, payer_marchand}
use diddi_pay_backend.Wallet.UseCases.Operations.{
  deposer, retirer, confirmer_operation, echouer_operation,
}
use diddi_pay_backend.Wallet.UseCases.Reconcile.{reconcile_transaction}
use diddi_pay_backend.Wallet.Exchange.{convertir, quote_rate}
use diddi_pay_backend.Wallet.Service.{debiter, crediter, ouvrir_compte_technique}

-- One request, in any environment: the answers of the gateways may differ from one to the next.
pub data Request : Store → Store → Type 0 where
  registers : {s : Store} (user_id : ℕ) → Request s (request (provisionner_compte user_id) s).1
  registers_merchant :
      {s : Store} (user_id : ℕ) → Request s (request (provisionner_compte_marchand user_id) s).1
  reads_balance : {s : Store} (user_id : ℕ) → Request s (request (consulter_solde user_id) s).1
  reads_transaction :
      {s : Store} (user_id transaction_id : ℕ)
      → Request s (request (consulter_transaction user_id transaction_id) s).1
  verifies_pin :
      {s : Store} (env : Environment) (user_id : ℕ) (pin : String)
      → Request s (request (verifier_pin_utilisateur env user_id pin) s).1
  defines_pin :
      {s : Store} (env : Environment) (user_id : ℕ) (pin confirm : String) (proof : StepUpProof)
      → Request s (request (define_pin env user_id pin confirm proof) s).1
  changes_pin :
      {s : Store} (env : Environment) (user_id : ℕ) (current pin confirm : String)
      → Request s (request (change_pin env user_id current pin confirm) s).1
  recovers_pin :
      {s : Store} (env : Environment) (user_id : ℕ) (code pin confirm : String)
      → Request s (request (reset_pin_with_recovery env user_id code pin confirm) s).1
  resets_pin :
      {s : Store} (env : Environment) (admin : Option ℕ) (user_id : ℕ) (pin confirm reason : String)
      → Request s (request (admin_reset_pin env admin user_id pin confirm reason) s).1
  transfers :
      {s : Store} (env : Environment) (user_id : ℕ) (phone : String) (amount : ℤ) (pin : String)
      (proof : Option StepUpProof) (key : String)
      → Request s (request (transferer_p2p env user_id phone amount pin proof key) s).1
  pays :
      {s : Store} (env : Environment) (user_id merchant_id : ℕ) (amount : ℤ) (pin : String)
      (origin reference : Option String) (key : String)
      → Request s
          (request (payer_marchand env user_id merchant_id amount pin origin reference key) s).1
  deposits :
      {s : Store} (env : Environment) (user_id : ℕ) (provider : String) (amount : ℤ)
      (phone : String) (email : Option String) (key : String)
      → Request s (request (deposer env user_id provider amount phone email key) s).1
  withdraws :
      {s : Store} (env : Environment) (user_id : ℕ) (provider : String) (amount : ℤ)
      (phone pin key : String)
      → Request s (request (retirer env user_id provider amount phone pin key) s).1
  confirms :
      {s : Store} (env : Environment) (transaction_id : ℕ) (mode : String)
      → Request s (request (confirmer_operation env transaction_id mode) s).1
  fails :
      {s : Store} (transaction_id : ℕ) (mode : String)
      → Request s (request (echouer_operation transaction_id mode) s).1
  reconciles :
      {s : Store} (env : Environment) (transaction_id : ℕ)
      → Request s (request (reconcile_transaction env transaction_id) s).1
  converts :
      {s : Store} (source_id target_id : ℕ) (amount : Money) (key : String)
      → Request s (request (convertir source_id target_id amount key) s).1
  quotes :
      {s : Store} (base quote : Currency) (rate : Decimal) (source : Option String)
      → Request s (request (quote_rate base quote rate source) s).1
  debits :
      {s : Store} (from to : ℕ) (amount : ℤ) (reference key : String) (type : TransactionType)
      (origin : Option String)
      → Request s (request (debiter from to amount reference key type origin) s).1
  credits :
      {s : Store} (to from : ℕ) (amount : ℤ) (reference key : String) (type : TransactionType)
      (origin : Option String)
      → Request s (request (crediter to from amount reference key type origin) s).1
  opens :
      {s : Store} (reference : String) → Request s (request (ouvrir_compte_technique reference) s).1
