-- ===== src/Wallet/UseCases.antt =====
-- payfund_app/modules/wallet/application/use_cases.py: `WalletUseCases`, its accounts, its reads and what
-- its other parts share.
pub mod Pin
pub mod Proofs
pub mod Payments
pub mod Operations
pub mod Reconcile
pub mod Samples
mod Tests
use diddi_pay_backend.Prelude.{
  ℕ, ◌+◌, ◌-◌, ◌++◌, Bool, true, false, not, ◌&&◌, String, str_eq, concat, count_chars, drop_text,
  leb, ltb, ◌==◌, ◌is◌, to_text, Option, none, some, List, [], ◌∷◌, if◌then◌else◌, find_row,
}
use diddi_pay_backend.Prelude.Int.{ℤ}
use diddi_pay_backend.Wallet.Errors.{
  Error, Result, ok, err, invalid_amount, invalid_amount_error, transaction_not_found,
}
use diddi_pay_backend.Wallet.Money.{Money, Currency, currency_enum, money, Balance, xof}
use diddi_pay_backend.Wallet.Entities.{user, merchant, completed}
use diddi_pay_backend.Wallet.Entities.Codes.{transaction_status_enum}
use diddi_pay_backend.Wallet.Store.{
  Store, Account, Transaction, LedgerEntry, PaymentCompleted, UserPhone, Action, pure, raise, lift,
  gets, branch, raise_if, modify, ◌>>=◌, ◌>>◌, get_by_user, get_transaction, entry_for_account,
  balance, create_account,
}
use diddi_pay_backend.Wallet.Pins.{is_present}

abbrev as_amount_error : Result Money → Result Money
as_amount_error (ok m) = ok m
as_amount_error (err invalid_amount) = err invalid_amount_error
as_amount_error (err e) = err e

-- `to_money`
unfoldable pub to_money : ℤ → Currency → Result Money
to_money amount currency = as_amount_error (money amount (to_text currency))

-- A value that a query did not find.
abbrev pub or_raise {ℓ} : {A : Type ℓ} → Option A → Error → Result A
or_raise none e = err e
or_raise (some a) e = ok a

-- The next of the identifiers and of the random values.
unfoldable pub draw : Action ℕ
draw s = (ok s.next_id, record s { next_id = s.next_id + 1 })

abbrev pub existing_or : Option Account → Action Account → Action Account
existing_or none action = action
existing_or (some account) action = pure account

-- `provisionner_compte` and `provisionner_compte_marchand`
unfoldable pub provisionner_compte : ℕ → Action Account
provisionner_compte user_id = do
  existing ← gets (get_by_user user_id xof user)
  existing_or existing (create_account (some user_id) user xof none false)

unfoldable pub provisionner_compte_marchand : ℕ → Action Account
provisionner_compte_marchand user_id = do
  existing ← gets (get_by_user user_id xof merchant)
  existing_or existing (create_account (some user_id) merchant xof none false)

-- `compte_de`
unfoldable pub compte_de : ℕ → Action Account
compte_de user_id = do
  account ← gets (get_by_user user_id xof user)
  existing_or account (provisionner_compte user_id)

-- `consulter_solde`
unfoldable pub consulter_solde : ℕ → Action (Account × Balance)
consulter_solde user_id = do
  account ← compte_de user_id
  current ← gets (balance account.id)
  pure (account, current)

abbrev is_for : ℕ → Option ℕ → Bool
is_for account_id none = false
is_for account_id (some id) = id == account_id

-- `consulter_transaction`
unfoldable pub consulter_transaction : ℕ → ℕ → Action (Transaction × Option LedgerEntry)
consulter_transaction user_id transaction_id = do
  account ← compte_de user_id
  found ← gets (get_transaction transaction_id)
  transaction ← lift (or_raise found transaction_not_found)
  entry ← gets (entry_for_account transaction_id account.id)
  raise_if (not (is_present entry) && not (is_for account.id transaction.account_id))
      transaction_not_found
  pure (transaction, entry)

-- `UserPhoneRepository.user_id_for`
unfoldable pub user_id_for : String → Store → Option UserPhone
user_id_for phone s = find_row (λ row. str_eq row.phone phone) s.phones

abbrev visible_part : String → String
visible_part phone =
    if leb 4 (count_chars phone) then drop_text (count_chars phone - 4) phone else phone

abbrev display_name : String → Option UserPhone → Option String
display_name phone none = none
display_name phone (some _) = some (concat "Compte se terminant par " (visible_part phone))

-- `lookup_recipient_display_name`
unfoldable pub lookup_recipient_display_name : String → Store → Option String
lookup_recipient_display_name phone s = display_name phone (user_id_for phone s)

abbrev event_of : Transaction → Money → PaymentCompleted
event_of transaction amount = record {
  transaction_id = transaction.id;
  transaction_type = transaction.transaction_type;
  money = amount;
  origin_module = transaction.origin_module;
}

-- `OutboxRepository.enqueue`
unfoldable pub enqueue : PaymentCompleted → Action (Unit {0})
enqueue event =
    modify
      (λ s. record s { outbox = s.outbox ++ record { payload = event; is_published = false } ∷ [] })

-- `EventBusPort.publish`
unfoldable pub publish : PaymentCompleted → Action (Unit {0})
publish event = modify (λ s. record s { published = s.published ++ event ∷ [] })

-- `_publish_completed`; the flag says whether a bus was given.
unfoldable pub publish_completed : Bool → Transaction → Money → Action (Unit {0})
publish_completed has_bus transaction amount =
    branch (transaction.status is completed)
      (enqueue (event_of transaction amount)
        >> branch has_bus (publish (event_of transaction amount)) (pure tt))
      (pure tt)
