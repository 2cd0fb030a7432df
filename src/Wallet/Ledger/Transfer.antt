-- ===== src/Wallet/Ledger/Transfer.antt =====
-- `LedgerService.transfer` of payfund_app/modules/wallet/application/ledger.py moves money.
use diddi_pay_backend.Prelude.{
  ◌≢◌, ◌is◌, not, ◌||◌, arith, ℕ, ◌≡◌, refl, Bool, true, false, String, Option, some, Bool-cases,
  Option-cases, inl, inr, ◌⊎◌,
}
use diddi_pay_backend.Prelude.Int.{pos, ◌≤ℤ◌, ltb_ℤ}
use diddi_pay_backend.Wallet.Errors.{Error, Result, ok, err, currency_mismatch}
use diddi_pay_backend.Wallet.Money.{Money, currency_enum, covers}
use diddi_pay_backend.Wallet.Entities.{active, closed, TransactionType, TransactionStatus}
use diddi_pay_backend.Wallet.Store.{
  branch, raise_if, currency_or_xof, get_account, balance, is_of_account, pure, Store, Account,
  Transaction, TransactionKey, ◌>>◌, get_by_idempotency_key, net,
}
use diddi_pay_backend.Wallet.Ledger.{
  is_active, is_closed, load_debitable, load_creditable, ensure_sufficient, post, transfer,
  move_lines,
}
use diddi_pay_backend.Wallet.Ledger.Post.{Posts, post-Posts}

-- What is checked before a transfer is written.
pub record CanTransfer (source_id destination_id : ℕ) (amount : Money) (s : Store)
    (source destination : Account) : Type 0 where
  pub from : get_account source_id s ≡ some source
  pub to : get_account destination_id s ≡ some destination
  pub sends : source.status ≡ active
  pub receives : destination.status ≢ closed
  pub same_currency : destination.currency ≡ source.currency
  pub amount_currency : amount.currency ≡ source.currency
  pub funded :
      (source.allows_negative_balance ≡ true)
      ⊎ (pos amount.amount ≤ℤ net (is_of_account source.id) s.entries)

abbrev pub Transfers :
    ℕ → ℕ → Money → String → TransactionKey → Store → Result (Transaction × Bool) × Store → Type 0
Transfers from to amount reference key s (ok (t, false), s') =
    (source : Account) × (destination : Account) × CanTransfer from to amount s source destination
    × Posts (move_lines source.id destination.id amount reference) key s (ok (t, false), s')
Transfers from to amount reference key s (ok (t, true), s') =
    (get_by_idempotency_key key s ≡ some t) × (s' ≡ s)
Transfers from to amount reference key s (err e, s') = s' ≡ s

load_debitable_lem :
    (id : ℕ) (s : Store)
    → ((a : Account) × (get_account id s ≡ some a)
        × (a.status ≡ active)
        × (load_debitable id s ≡ (ok a, s)))
      ⊎ ((e : Error) × (load_debitable id s ≡ (err e, s)))
unfolding load_debitable
load_debitable_lem id s = elim (Option-cases (get_account id s)) [
  | inl absent ↦ rw absent (inr (_, refl))
  | inr (a, found) ↦ elim (Bool-cases (is_active a.status)) [
    | inl sends ↦ rw (found, sends) (inl (a, refl, ground arith, refl))
    | inr idle ↦ rw (found, idle) (inr (_, refl))
  ]
]

load_creditable_lem :
    (id : ℕ) (s : Store)
    → ((a : Account) × (get_account id s ≡ some a)
        × (a.status ≢ closed)
        × (load_creditable id s ≡ (ok a, s)))
      ⊎ ((e : Error) × (load_creditable id s ≡ (err e, s)))
unfolding load_creditable
load_creditable_lem id s = elim (Option-cases (get_account id s)) [
  | inl absent ↦ rw absent (inr (_, refl))
  | inr (a, found) ↦ elim (Bool-cases (is_closed a.status)) [
    | inl shut ↦ rw (found, shut) (inr (_, refl))
    | inr receives ↦ rw (found, receives) (inl (a, refl, ground arith, refl))
  ]
]

ensure_sufficient_lem :
    (id : ℕ) (amount : Money) (s : Store)
    → ((pos amount.amount ≤ℤ net (is_of_account id) s.entries)
        × (ensure_sufficient id amount s ≡ (ok tt, s)))
      ⊎ ((e : Error) × (ensure_sufficient id amount s ≡ (err e, s)))
unfolding ensure_sufficient covers balance
ensure_sufficient_lem id amount s =
    elim (Bool-cases (currency_or_xof (get_account id s) is amount.currency)) [
      | inl same ↦
          elim (Bool-cases (ltb_ℤ (net (is_of_account id) s.entries) (pos amount.amount))) [
            | inl short ↦ rw (same, short) (inr (_, refl))
            | inr enough ↦ rw (same, enough) (inl (ground arith, refl))
          ]
      | inr other ↦ rw other (inr (_, refl))
    ]

-- The check of the balance, for the accounts that have one.
funded_lem :
    (account : Account) (amount : Money) (s : Store)
    → (((account.allows_negative_balance ≡ true)
          ⊎ (pos amount.amount ≤ℤ net (is_of_account account.id) s.entries))
        × (branch account.allows_negative_balance (pure tt) (ensure_sufficient account.id amount) s
            ≡ (ok tt, s)))
      ⊎ ((e : Error) × (branch account.allows_negative_balance
              (pure tt)
              (ensure_sufficient account.id amount)
              s
            ≡ (err e, s)))
funded_lem account amount s = elim (Bool-cases account.allows_negative_balance) [
  | inl may ↦ rw may (inl (inl refl, refl))
  | inr never ↦ elim (ensure_sufficient_lem account.id amount s) [
    | inl (enough, e) ↦ rw (never, e) (inl (inr enough, refl))
    | inr (x, e) ↦ rw (never, e) (inr (x, refl))
  ]
]

module _ (from to : ℕ) (amount : Money) (type : TransactionType) (reference : String)
    (key : TransactionKey) (origin : Option String) (status : TransactionStatus) (s : Store) where
  pub transfer-Transfers :
      Transfers from to amount reference key s
        (transfer from to amount type reference key origin status s)
  unfolding transfer
  transfer-Transfers = elim (Option-cases (get_by_idempotency_key key s)) [
    | inr (t, e) ↦ rw e (e, refl)
    | inl absent ↦ rw absent (elim (load_debitable_lem from s) [
      | inr (x, e) ↦ rw e refl
      | inl (source, f, sends, e) ↦ rw e (elim (load_creditable_lem to s) [
        | inr (x, g) ↦ rw g refl
        | inl (destination, g, receives, k) ↦ rw k (checked source destination f g sends receives)
      ])
    ])
  ]
    where
      ends :
          (source destination : Account)
          → CanTransfer from to amount s source destination
          → (o : Result (Transaction × Bool) × Store)
          → Posts (move_lines source.id destination.id amount reference) key s o
          → Transfers from to amount reference key s o
      ends source destination c (ok (t, false), s') h = (source, destination, c, h)
      ends source destination c (ok (t, true), s') h = h
      ends source destination c (err e, s') h = h

      checked :
          (source destination : Account)
          → get_account from s ≡ some source
          → get_account to s ≡ some destination
          → source.status ≡ active
          → destination.status ≢ closed
          → Transfers from to amount reference key s (
              (raise_if
                    (not (source.currency is destination.currency)
                      || not (source.currency is amount.currency))
                    currency_mismatch
                  >> (branch source.allows_negative_balance
                        (pure tt)
                        (ensure_sufficient source.id amount)
                      >> post type
                          (move_lines source.id destination.id amount reference)
                          key
                          origin
                          status))
                s)
      checked source destination f g sends receives =
          elim (Bool-cases (
            not (source.currency is destination.currency)
            || not (source.currency is amount.currency))) [
              | inl mixed ↦ rw mixed refl
              | inr same ↦ rw same (elim (funded_lem source amount s) [
                | inr (x, e) ↦ rw e refl
                | inl (funded, e) ↦ rw e (
                    ends source destination
                      (record {
                        from = f;
                        to = g;
                        sends = sends;
                        receives = receives;
                        same_currency = ground arith;
                        amount_currency = ground arith;
                        funded = funded;
                      })
                      (post type (move_lines source.id destination.id amount reference) key origin
                        status s)
                      (post-Posts type (move_lines source.id destination.id amount reference) key
                        origin status s))
              ])
            ]
