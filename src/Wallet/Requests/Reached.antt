-- ===== src/Wallet/Requests/Reached.antt =====
-- What every request of payfund_app/modules/wallet maintains holds of every wallet that requests reach.
use diddi_pay_backend.Wallet.Store.{Store}
use diddi_pay_backend.Wallet.Requests.{
  Request, registers, registers_merchant, reads_balance, reads_transaction, verifies_pin,
  defines_pin, changes_pin, recovers_pin, resets_pin, transfers, pays, deposits, withdraws,
  confirms, fails, reconciles, converts, quotes, debits, credits, opens,
}
use diddi_pay_backend.Wallet.Requests.Laws.{Invariant, request-Maintains}
use diddi_pay_backend.Wallet.Requests.Accounts.{
  provisionner_compte-Maintains, provisionner_compte_marchand-Maintains, consulter_solde-Maintains,
  consulter_transaction-Maintains,
}
use diddi_pay_backend.Wallet.Requests.Pins.{
  verifier_pin_utilisateur-Maintains, define_pin-Maintains, change_pin-Maintains,
  reset_pin_with_recovery-Maintains, admin_reset_pin-Maintains,
}
use diddi_pay_backend.Wallet.Requests.Moves.{
  transferer_p2p-Maintains, payer_marchand-Maintains, debiter-Maintains, crediter-Maintains,
  ouvrir_compte_technique-Maintains, convertir-Maintains, quote_rate-Maintains,
}
use diddi_pay_backend.Wallet.Requests.Operations.{
  confirmer_operation-Maintains, echouer_operation-Maintains, deposer-Maintains, retirer-Maintains,
  reconcile_transaction-Maintains,
}

-- A wallet that requests lead to from one where `I` holds.
pub data Reached (I : Store → Type 0) : Store → Type 0 where
  start : {s : Store} → I s → Reached I s
  next : {s s' : Store} → Reached I s → Request s s' → Reached I s'

module _ {I : Store → Type 0} (laws : Invariant I) where
  step : {s s' : Store} → Request s s' → I s → I s'
  step (registers u) = request-Maintains laws _ (provisionner_compte-Maintains laws u) _
  step (registers_merchant u) =
      request-Maintains laws _ (provisionner_compte_marchand-Maintains laws u) _
  step (reads_balance u) = request-Maintains laws _ (consulter_solde-Maintains laws u) _
  step (reads_transaction u t) =
      request-Maintains laws _ (consulter_transaction-Maintains laws u t) _
  step (verifies_pin env u p) =
      request-Maintains laws _ (verifier_pin_utilisateur-Maintains laws env u p) _
  step (defines_pin env u p c proof) =
      request-Maintains laws _ (define_pin-Maintains laws env u p c proof) _
  step (changes_pin env u o p c) =
      request-Maintains laws _ (change_pin-Maintains laws env u o p c) _
  step (recovers_pin env u o p c) =
      request-Maintains laws _ (reset_pin_with_recovery-Maintains laws env u o p c) _
  step (resets_pin env admin u p c reason) =
      request-Maintains laws _ (admin_reset_pin-Maintains laws env admin u p c reason) _
  step (transfers env u phone n pin proof key) =
      request-Maintains laws _ (transferer_p2p-Maintains laws env u phone n pin proof key) _
  step (pays env u m n pin origin r key) =
      request-Maintains laws _ (payer_marchand-Maintains laws env u m n pin origin r key) _
  step (deposits env u p n phone email key) =
      request-Maintains laws _ (deposer-Maintains laws env u p n phone email key) _
  step (withdraws env u p n phone pin key) =
      request-Maintains laws _ (retirer-Maintains laws env u p n phone pin key) _
  step (confirms env t m) = request-Maintains laws _ (confirmer_operation-Maintains laws env t m) _
  step (fails t m) = request-Maintains laws _ (echouer_operation-Maintains laws t m) _
  step (reconciles env t) = request-Maintains laws _ (reconcile_transaction-Maintains laws env t) _
  step (converts a b m key) = request-Maintains laws _ (convertir-Maintains laws a b m key) _
  step (quotes b q r src) = request-Maintains laws _ (quote_rate-Maintains laws b q r src) _
  step (debits a b n r key type origin) =
      request-Maintains laws _ (debiter-Maintains laws a b n r key type origin) _
  step (credits a b n r key type origin) =
      request-Maintains laws _ (crediter-Maintains laws a b n r key type origin) _
  step (opens r) = request-Maintains laws _ (ouvrir_compte_technique-Maintains laws r) _

  pub Reached-holds : {s : Store} → Reached I s → I s
  Reached-holds (start h) = h
  Reached-holds (next r q) = step q (Reached-holds r)
