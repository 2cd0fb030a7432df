-- ===== src/Wallet/Service.antt =====
-- payfund_app/modules/wallet/infra/wallet_service.py: `WalletService`, the wallet as other modules call it.
use diddi_pay_backend.Prelude.{ℕ, false, String, Option, none, some}
use diddi_pay_backend.Prelude.Int.{ℤ}
use diddi_pay_backend.Wallet.Money.{Money, money, xof}
use diddi_pay_backend.Wallet.Entities.{TransactionType, user, technical, completed}
use diddi_pay_backend.Wallet.Store.{
  Store, Transaction, caller_key, Action, pure, lift, gets, ◌>>=◌, ◌>>◌, get_by_user,
  create_account, balance, assign,
}
use diddi_pay_backend.Wallet.Ledger.{transfer}
use diddi_pay_backend.Wallet.UseCases.{existing_or}

abbrev pub with_money : Money → Transaction → Transaction
with_money amount row = record row { money = some amount }

-- What `debiter` and `crediter` do from one account to another. The amount is one of XOF, and the
-- transaction that comes back gets it, also when the key was known.
unfoldable pub move : ℕ → ℕ → ℤ → String → String → TransactionType → Option String → Action ℕ
move source_id destination_id montant reference idempotency_key type origin_module = do
  amount ← lift (money montant "XOF")
  outcome ←
      transfer source_id destination_id amount type reference (caller_key idempotency_key)
        origin_module completed
  assign outcome.0.id (with_money amount)
  pure outcome.0.id

-- `debiter`
unfoldable pub debiter : ℕ → ℕ → ℤ → String → String → TransactionType → Option String → Action ℕ
debiter compte_id contrepartie_compte_id = move compte_id contrepartie_compte_id

-- `crediter`
unfoldable pub crediter : ℕ → ℕ → ℤ → String → String → TransactionType → Option String → Action ℕ
crediter compte_id contrepartie_compte_id = move contrepartie_compte_id compte_id

-- `ouvrir_compte_technique`
unfoldable pub ouvrir_compte_technique : String → Action ℕ
ouvrir_compte_technique reference = do
  account ← create_account none technical xof (some reference) false
  pure account.id

-- `solde`
unfoldable pub solde : ℕ → Store → ℤ
solde compte_id s = (balance compte_id s).amount

-- `compte_de_utilisateur`
unfoldable pub compte_de_utilisateur : ℕ → Action ℕ
compte_de_utilisateur user_id = do
  existing ← gets (get_by_user user_id xof user)
  account ← existing_or existing (create_account (some user_id) user xof none false)
  pure account.id
