-- ===== src/Wallet/UseCases/Reconcile.antt =====
-- `reconcile_transaction` of payfund_app/modules/wallet/application/use_cases.py.
use diddi_pay_backend.Prelude.{
  ℕ, Bool, true, false, not, ◌||◌, String, str_eq, is_empty, Option, none, some, [], ◌∷◌, ◌is◌,
  ◌is_in◌, ◌==◌, to_text,
}
use diddi_pay_backend.Wallet.Errors.{Result, ok, err, not_implemented, gateway_error}
use diddi_pay_backend.Wallet.Money.{Money, currency_enum}
use diddi_pay_backend.Wallet.Entities.{withdrawal, completed, failed, reversed}
use diddi_pay_backend.Wallet.Entities.Codes.{transaction_type_enum, transaction_status_enum}
use diddi_pay_backend.Wallet.Store.{
  Transaction, Action, pure, lift, gets, branch, ◌>>=◌, ◌>>◌, get_transaction,
}
use diddi_pay_backend.Wallet.Gateways.{
  Environment, Gateway, GatewayStatus, GatewayOperation, Answer, operation, unsupported,
  unavailable, gateway_for_mode,
}
use diddi_pay_backend.Wallet.UseCases.{draw}
use diddi_pay_backend.Wallet.UseCases.Operations.{confirmer_operation, echouer_operation}

-- The statuses of a `ReconcileOutcome`; the source holds them as texts.
pub data ReconcileStatus : Type 0 where
  not_found missing_provider_reference already_finalized : ReconcileStatus
  amount_or_currency_mismatch reconcile_completed reconcile_failed reconcile_pending :
      ReconcileStatus

-- The transaction of an outcome is given by its identifier, since the source answers the object itself.
pub record ReconcileOutcome : Type 0 where
  pub transaction_id : Option ℕ
  pub status : ReconcileStatus
  pub gateway_mode : Option String

abbrev outcome : Transaction → ReconcileStatus → Option String → ReconcileOutcome
outcome transaction status gateway_mode = record {
  transaction_id = some transaction.id;
  status = status;
  gateway_mode = gateway_mode;
}

-- `transaction.gateway_mode or "paystack"`
abbrev pub mode_of : Option String → String
mode_of none = "paystack"
mode_of (some mode) = elim (is_empty mode) [ true ↦ "paystack" | false ↦ mode ]

abbrev checked : Answer → Result GatewayOperation
checked (operation o) = ok o
checked unsupported = err not_implemented
checked unavailable = err gateway_error

abbrev verify : Gateway → Bool → String → Answer
verify gateway true reference = gateway.verifier_retrait reference
verify gateway false reference = gateway.verifier_depot reference

abbrev differs : Option ℕ → Option String → Option Money → Bool
differs none currency m = false
differs (some amount) currency none = true
differs (some amount) none (some m) = true
differs (some amount) (some currency) (some m) =
    not (amount == m.amount) || not (str_eq currency (to_text m.currency))

module _ (env : Environment) where
  abbrev pub settle_status :
      Transaction → String → GatewayOperation → GatewayStatus → Action ReconcileOutcome
  settle_status transaction mode result GatewayStatus.completed =
      branch (differs result.amount result.currency transaction.money)
        (pure (outcome transaction amount_or_currency_mismatch (some mode)))
        (confirmer_operation env transaction.id mode
          >> pure (outcome transaction reconcile_completed (some mode)))
  settle_status transaction mode result GatewayStatus.failed =
      echouer_operation transaction.id mode
      >> pure (outcome transaction reconcile_failed (some mode))
  settle_status transaction mode result GatewayStatus.pending =
      pure (outcome transaction reconcile_pending (some mode))

  -- What is done with the answer of the gateway.
  unfoldable pub conclude : Transaction → String → GatewayOperation → Action ReconcileOutcome
  conclude transaction mode result = settle_status transaction mode result result.status

  unfoldable pub interrogate : Transaction → String → Action ReconcileOutcome
  interrogate transaction reference = do
    fresh ← draw
    gateway ← lift (gateway_for_mode env (env.uuid_text fresh) (mode_of transaction.gateway_mode))
    result ← lift (checked (verify gateway (transaction.transaction_type is withdrawal) reference))
    conclude transaction (mode_of transaction.gateway_mode) result

  abbrev pub with_reference : Transaction → Option String → Action ReconcileOutcome
  with_reference transaction none = pure (outcome transaction missing_provider_reference none)
  with_reference transaction (some reference) =
      branch (transaction.status is_in (completed ∷ failed ∷ reversed ∷ []))
        (pure (outcome transaction already_finalized transaction.gateway_mode))
        (interrogate transaction reference)

  abbrev pub with_transaction : Option Transaction → Action ReconcileOutcome
  with_transaction none =
      pure (record { transaction_id = none; status = not_found; gateway_mode = none })
  with_transaction (some transaction) = with_reference transaction transaction.provider_reference

  -- `reconcile_transaction`
  unfoldable pub reconcile_transaction : ℕ → Action ReconcileOutcome
  reconcile_transaction transaction_id = do
    found ← gets (get_transaction transaction_id)
    with_transaction found
