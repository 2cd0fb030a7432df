-- ===== src/Fund/WalletClient/Contract.antt =====
-- The wallet of the same process (payfund_app/modules/fund/infra/wallet_client.py) keeps the contract of the
-- port: its ledger of entries implements balances by account.
use diddi_pay_backend.Prelude.{
  ℕ, ◌≡◌, refl, ap, Bool, true, false, String, Option, Option-cases, inl, inr,
}
use diddi_pay_backend.Prelude.Int.{ℤ, pos, negsuc}
use diddi_pay_backend.Wallet.Errors.{Result, ok, err}
use diddi_pay_backend.Wallet.Money.{Money, money, currency_of, xof}
use diddi_pay_backend.Wallet.Entities.{TransactionType, completed, user}
use diddi_pay_backend.Wallet.Store.{
  Store, Transaction, caller_key, balance, get_by_idempotency_key, get_by_user, create_account,
  assign, continue, pure, ◌>>◌,
}
use diddi_pay_backend.Wallet.Ledger.{transfer}
use diddi_pay_backend.Wallet.Ledger.Transfer.{Transfers, transfer-Transfers}
use diddi_pay_backend.Wallet.Ledger.Funds.{Moves, transfer-Moves}
use diddi_pay_backend.Wallet.Gateways.{Environment}
use diddi_pay_backend.Wallet.Service.{
  move, debiter, crediter, solde, compte_de_utilisateur, with_money,
}
use diddi_pay_backend.Fund.Repositories.{is_present}
use diddi_pay_backend.Fund.Ports.Contract.{Payment, Same, MovesMoney}
use diddi_pay_backend.Fund.WalletClient.{get_wallet_service}

-- Whether a caller's key is that of a transaction.
abbrev is_known_key : String → Store → Bool
is_known_key key s = is_present (get_by_idempotency_key (caller_key key) s)

module _ (env : Environment) where
  abbrev ServicePayment : Bool → ℕ → ℕ → ℤ → Store → Result ℕ × Store → Type 0
  ServicePayment = Payment (get_wallet_service env)

  paid :
      (from to n : ℕ) (m : Money) (reference key : String) (s : Store)
      (o : Result (Transaction × Bool) × Store)
      → Transfers from to m reference (caller_key key) s o
      → Moves from to n s o
      → ServicePayment
          (is_known_key key s)
          from
          to
          (pos n)
          s
          (continue o.0 (λ outcome. assign outcome.0.id (with_money m) >> pure outcome.0.id) o.1)
  unfolding get_wallet_service solde assign balance
  paid from to n m reference key s (ok (t, false), s')
        (a, b, can, (bal, absent, numbered, e, same, more)) moves =
      rw absent (λ k. moves k)
  paid from to n m reference key s (ok (t, true), s') (found, same) moves =
      rw found (λ k. ap (λ x. (balance k x).amount) same)
  paid from to n m reference key s (err e, s') same moves = λ k. ap (λ x. (balance k x).amount) same

  move_lem :
      (from to : ℕ) (amount : ℤ) (reference key : String) (type : TransactionType)
      (origin : Option String) (s : Store)
      → ServicePayment
          (is_known_key key s)
          from
          to
          amount
          s
          (move from to amount reference key type origin s)
  unfolding move money currency_of
  move_lem from to (negsuc n) reference key type origin s = λ k. refl
  move_lem from to (pos n) reference key type origin s =
      let amount : Money = record { amount = n; currency = xof } in
      paid from to n amount reference key s
        (transfer from to amount type reference (caller_key key) origin completed s)
        (transfer-Transfers from to amount type reference (caller_key key) origin completed s)
        (transfer-Moves from to amount type reference (caller_key key) origin completed s)

  opens_lem :
      (user_id : ℕ) (s : Store)
      → Same (get_wallet_service env) s (compte_de_utilisateur user_id s).1
  unfolding compte_de_utilisateur get_wallet_service solde balance create_account
  opens_lem user_id s = elim (Option-cases (get_by_user user_id xof user s)) [
    | inl absent ↦ rw absent (λ k. refl)
    | inr (account, found) ↦ rw found (λ k. refl)
  ]

  opens_knows_lem :
      (user_id : ℕ) (s : Store) (key : String)
      → is_known_key key (compte_de_utilisateur user_id s).1 ≡ is_known_key key s
  unfolding compte_de_utilisateur create_account get_by_idempotency_key
  opens_knows_lem user_id s key = elim (Option-cases (get_by_user user_id xof user s)) [
    | inl absent ↦ rw absent refl
    | inr (account, found) ↦ rw found refl
  ]

  -- The wallet of the same process keeps the contract of the port: a debit or a credit that
  -- answers takes the amount from the balance of one account, adds it to that of the other and
  -- changes no third one, or changes no balance if its key was known; one that raises changes no
  -- balance; the account of a user is found or opened without a change of any balance or key.
  pub get_wallet_service-MovesMoney : MovesMoney (get_wallet_service env)
  unfolding get_wallet_service debiter crediter
  get_wallet_service-MovesMoney = record {
    knows = is_known_key;
    debits = move_lem;
    credits = λ to from. move_lem from to;
    opens = opens_lem;
    opens_knows = opens_knows_lem;
  }
