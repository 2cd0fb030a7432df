-- ===== src/Wallet/UseCases/Payments.antt =====
-- The transfers of payfund_app/modules/wallet/application/use_cases.py between users and to merchants.
use diddi_pay_backend.Prelude.{
  ℕ, Bool, true, false, not, ◌&&◌, String, concat, Option, none, some, ltb, ◌==◌, ◌is◌,
}
use diddi_pay_backend.Prelude.Int.{ℤ}
use diddi_pay_backend.Wallet.Errors.{
  recipient_not_found, merchant_not_found, cannot_transfer_to_self, invalid_amount_error,
  idempotency_conflict,
}
use diddi_pay_backend.Wallet.Money.{Money, currency_enum, xof}
use diddi_pay_backend.Wallet.Entities.{
  Direction, debit, credit, merchant, user, p2p_transfer, merchant_payment, completed,
}
use diddi_pay_backend.Wallet.Entities.Codes.{
  account_type_enum, direction_enum, transaction_type_enum,
}
use diddi_pay_backend.Wallet.Store.{
  Account, Transaction, LedgerEntry, caller_key, Action, pure, lift, gets, branch, raise_if, ◌>>=◌,
  ◌>>◌, get_account, get_by_user, get_by_idempotency_key, entry_for_account, assign,
}
use diddi_pay_backend.Wallet.Ledger.{transfer}
use diddi_pay_backend.Wallet.Gateways.{Environment}
use diddi_pay_backend.Wallet.UseCases.{
  or_raise, to_money, compte_de, user_id_for, publish_completed,
}
use diddi_pay_backend.Wallet.UseCases.Pin.{verify_pin}
use diddi_pay_backend.Wallet.UseCases.Proofs.{StepUpProof, require_transfer_step_up}

pub record TransferResult : Type 0 where
  pub transaction : Transaction
  pub money : Money
  pub replayed : Bool

-- `Money.is_positive`
abbrev pub is_positive : Money → Bool
is_positive m = ltb 0 m.amount

abbrev pub is_merchant : Option Account → Bool
is_merchant none = false
is_merchant (some account) = account.account_type is merchant

abbrev goes : Direction → Option LedgerEntry → Bool
goes direction none = false
goes direction (some entry) = entry.direction is direction

abbrev has_money : Money → Option LedgerEntry → Bool
has_money m none = false
has_money m (some entry) = entry.amount == m.amount && entry.currency is m.currency

-- The test that a known key belongs to the same transfer.
abbrev pub is_same_transfer : Transaction → Option LedgerEntry → Option LedgerEntry → Money → Bool
is_same_transfer existing source_entry destination_entry amount =
    existing.transaction_type is p2p_transfer
    && goes debit source_entry
    && goes credit destination_entry
    && has_money amount source_entry

-- A transfer whose key is known.
unfoldable pub replay_p2p : Account → Account → Money → Transaction → Action TransferResult
replay_p2p source destination amount existing = do
  source_entry ← gets (entry_for_account existing.id source.id)
  destination_entry ← gets (entry_for_account existing.id destination.id)
  raise_if (not (is_same_transfer existing source_entry destination_entry amount))
      idempotency_conflict
  pure (record { transaction = existing; money = amount; replayed = true })

abbrev pub unless_replayed :
    Option Transaction
    → (Transaction → Action TransferResult)
    → Action TransferResult
    → Action TransferResult
unless_replayed none replay action = action
unless_replayed (some existing) replay action = replay existing

module _ (env : Environment) where
  -- What follows a transfer.
  abbrev pub transferred : Money → Transaction × Bool → Action TransferResult
  transferred amount (transaction, replayed) =
      branch replayed (pure tt) (publish_completed env.has_bus transaction amount)
      >> pure (record { transaction = transaction; money = amount; replayed = replayed })

  -- The part of `transferer_p2p` after the search for the key.
  unfoldable pub send_p2p :
      ℕ → ℤ → Option StepUpProof → String → Account → Account → Money → Action TransferResult
  send_p2p user_id amount proof idempotency_key source destination money = do
    require_transfer_step_up env user_id amount proof
    outcome ←
        transfer source.id destination.id money p2p_transfer
          (concat "wallet:p2p:" (env.uuid_text user_id)) (caller_key idempotency_key)
          (some "wallet") completed
    transferred money outcome

  -- `transferer_p2p`
  unfoldable pub transferer_p2p :
      ℕ → String → ℤ → String → Option StepUpProof → String → Action TransferResult
  transferer_p2p user_id recipient_phone amount pin proof idempotency_key = do
    source ← compte_de user_id
    verify_pin env source.id pin
    money ← lift (to_money amount source.currency)
    raise_if (not (is_positive money)) invalid_amount_error
    phone ← gets (user_id_for recipient_phone)
    recipient ← lift (or_raise phone recipient_not_found)
    raise_if (recipient.user_id == user_id) cannot_transfer_to_self
    account ← gets (get_by_user recipient.user_id xof user)
    destination ← lift (or_raise account recipient_not_found)
    existing ← gets (get_by_idempotency_key (caller_key idempotency_key))
    unless_replayed existing (replay_p2p source destination money)
        (send_p2p user_id amount proof idempotency_key source destination money)

  abbrev pub set_business_reference : Option String → Transaction → Action (Unit {0})
  set_business_reference none transaction = pure tt
  set_business_reference (some reference) transaction =
      assign transaction.id (λ row. record row { business_reference = some reference })

  -- The part of `payer_marchand` after its checks.
  unfoldable pub pay :
      Account → Account → Money → Option String → Option String → String → Action TransferResult
  pay source destination money origin_module business_reference idempotency_key = do
    outcome ←
        transfer source.id destination.id money merchant_payment
          (concat "wallet:merchant:" (env.uuid_text destination.id)) (caller_key idempotency_key)
          origin_module completed
    set_business_reference business_reference outcome.0
    transferred money outcome

  -- `payer_marchand`
  unfoldable pub payer_marchand :
      ℕ → ℕ → ℤ → String → Option String → Option String → String → Action TransferResult
  payer_marchand user_id merchant_account_id amount pin origin_module business_reference
        idempotency_key =
      do
        source ← compte_de user_id
        verify_pin env source.id pin
        money ← lift (to_money amount source.currency)
        raise_if (not (is_positive money)) invalid_amount_error
        account ← gets (get_account merchant_account_id)
        raise_if (not (is_merchant account)) merchant_not_found
        destination ← lift (or_raise account merchant_not_found)
        raise_if (destination.id == source.id) cannot_transfer_to_self
        pay source destination money origin_module business_reference idempotency_key
