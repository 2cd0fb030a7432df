-- ===== src/Wallet/Ledger/Funds.antt =====
-- What a transfer of payfund_app/modules/wallet/application/ledger.py does to the balances.
use diddi_pay_backend.Prelude.{
  ℕ, ◌≡◌, refl, ap, sym, ◌∙◌, Bool, true, false, String, Option, some, map, arith, ◌==◌,
  if◌then◌else◌, Bool-cases, inl, inr, find_row, find_row-passes, ==_iff, subst,
}
use diddi_pay_backend.Prelude.Int.{ℤ, pos, ◌+ℤ◌, ◌-ℤ◌, ◌≤ℤ◌, int_laws}
use diddi_pay_backend.Wallet.Errors.{Result, ok, err}
use diddi_pay_backend.Wallet.Money.{Money}
use diddi_pay_backend.Wallet.Entities.{TransactionType, TransactionStatus}
use diddi_pay_backend.Wallet.Store.{
  Store, Account, Transaction, TransactionKey, entry_of, net, is_of_account, get_account, balance,
}
use diddi_pay_backend.Wallet.Ledger.{move_lines, transfer}
use diddi_pay_backend.Wallet.Ledger.Entries.{net-append}
use diddi_pay_backend.Wallet.Ledger.Transfer.{Transfers, transfer-Transfers}

get_account-id : (k : ℕ) (s : Store) (a : Account) → get_account k s ≡ some a → a.id ≡ k
unfolding get_account
get_account-id k s a h = (==_iff a.id k).0 (find_row-passes (λ row. row.id == k) s.accounts a h)

abbrev pub if_account : ℕ → ℕ → ℕ → ℤ
if_account id k amount = if id == k then pos amount else pos 0

-- What the two lines of a transfer add to a balance.
net-move_lines :
    (k tx source destination : ℕ) (amount : Money) (reference : String)
    → net (is_of_account k) (map (entry_of tx) (move_lines source destination amount reference))
      ≡ if_account destination k amount.amount -ℤ if_account source k amount.amount
net-move_lines k tx source destination amount reference = elim (Bool-cases (source == k)) [
  | inl paid ↦ elim (Bool-cases (destination == k)) [
    | inl got ↦ rw (paid, got) (omega int_laws)
    | inr other ↦ rw (paid, other) (omega int_laws)
  ]
  | inr not_paid ↦ elim (Bool-cases (destination == k)) [
    | inl got ↦ rw (not_paid, got) (omega int_laws)
    | inr other ↦ rw (not_paid, other) (omega int_laws)
  ]
]

-- Every account that may not be negative has a balance of at least zero.
abbrev pub AllFunded : Store → Type 0
AllFunded s =
    (k : ℕ) (a : Account)
    → get_account k s ≡ some a
    → a.allows_negative_balance ≡ false
    → pos 0 ≤ℤ (balance k s).amount

paid_lem :
    (x : ℤ) (n : ℕ) (b : Bool) → pos n ≤ℤ x → pos 0 ≤ℤ x +ℤ ((if b then pos n else pos 0) -ℤ pos n)
paid_lem x n true h = omega int_laws
paid_lem x n false h = omega int_laws

received_lem :
    (x : ℤ) (n : ℕ) (b : Bool) → pos 0 ≤ℤ x → pos 0 ≤ℤ x +ℤ ((if b then pos n else pos 0) -ℤ pos 0)
received_lem x n true h = omega int_laws
received_lem x n false h = omega int_laws

-- What a transfer does to the balances of all accounts, in each of its outcomes.
abbrev pub Moves : ℕ → ℕ → ℕ → Store → Result (Transaction × Bool) × Store → Type 0
Moves from to amount s (ok (t, false), s') =
    (k : ℕ)
    → (balance k s').amount
      ≡ (balance k s).amount +ℤ (if_account to k amount -ℤ if_account from k amount)
Moves from to amount s (ok (t, true), s') = s' ≡ s
Moves from to amount s (err e, s') = s' ≡ s

module _ (from to : ℕ) (amount : Money) (type : TransactionType) (reference : String)
    (key : TransactionKey) (origin : Option String) (status : TransactionStatus) (s : Store) where
  moved :
      (o : Result (Transaction × Bool) × Store)
      → Transfers from to amount reference key s o
      → Moves from to amount.amount s o
  unfolding balance
  moved (ok (t, true), s') h = h.1
  moved (err e, s') h = h
  moved (ok (t, false), s') (a, b, can, (bal, absent, k, e, same, rest)) = λ j.
      ap (net (is_of_account j)) e
      ∙ net-append (is_of_account j) s.entries _
      ∙ ap (λ z. net (is_of_account j) s.entries +ℤ z)
          (net-move_lines j t.id a.id b.id amount reference
            ∙ rw (get_account-id from s a can.from, get_account-id to s b can.to) refl)

  -- A transfer that is written takes the amount from the balance of one account, adds it to that
  -- of the other and changes no third one; a transfer whose key is known and one that raises
  -- change nothing.
  pub transfer-Moves :
      Moves from to amount.amount s (transfer from to amount type reference key origin status s)
  transfer-Moves =
      moved (transfer from to amount type reference key origin status s)
        (transfer-Transfers from to amount type reference key origin status s)

  still_funded :
      AllFunded s
      → (o : Result (Transaction × Bool) × Store) → Transfers from to amount reference key s o
      → Moves from to amount.amount s o
      → AllFunded o.1
  unfolding get_account balance
  still_funded f (ok (t, true), s') h m = subst AllFunded (sym m) f
  still_funded f (err e, s') h m = subst AllFunded (sym m) f
  still_funded f (ok (t, false), s') (a, b, can, (bal, absent, k, e, same, rest)) m = λ j c h never.
      subst (λ z. pos 0 ≤ℤ z) (sym (m j)) (of_account j c (get_account-same j c h) never)
    where
      get_account-same :
          (j : ℕ) (c : Account) → get_account j s' ≡ some c → get_account j s ≡ some c
      get_account-same j c h = subst (λ rows. find_row (λ row. row.id == j) rows ≡ some c) same h

      refused :
          {c : Account}
          → a.allows_negative_balance ≡ true
          → Path (Option Account) (some a) (some c)
          → c.allows_negative_balance ≡ false
          → ⊥
      refused may e never = ground arith

      enough :
          (j : ℕ) (c : Account)
          → get_account j s ≡ some c
          → c.allows_negative_balance ≡ false
          → from ≡ j
          → pos amount.amount ≤ℤ (balance j s).amount
      enough j c h never here = elim can.funded [
        | inl may ↦ absurd (refused may (sym can.from ∙ ap (λ i. get_account i s) here ∙ h) never)
        | inr covered ↦
            subst (λ i. pos amount.amount ≤ℤ net (is_of_account i) s.entries)
              (get_account-id from s a can.from ∙ here) covered
      ]

      of_account :
          (j : ℕ) (c : Account)
          → get_account j s ≡ some c
          → c.allows_negative_balance ≡ false
          → pos 0
            ≤ℤ (balance j s).amount
              +ℤ (if_account to j amount.amount -ℤ if_account from j amount.amount)
      of_account j c h never = elim (Bool-cases (from == j)) [
        | inr other ↦ rw other (received_lem _ amount.amount (to == j) (f j c h never))
        | inl pays ↦
            rw pays
              (paid_lem _ amount.amount (to == j) (enough j c h never ((==_iff from j).0 pays)))
      ]

  -- A transfer never overdraws: if every account that may not be negative has a balance of at
  -- least zero, this still holds after a call, whatever its outcome.
  pub transfer-AllFunded :
      AllFunded s → AllFunded (transfer from to amount type reference key origin status s).1
  transfer-AllFunded f =
      still_funded f (transfer from to amount type reference key origin status s)
        (transfer-Transfers from to amount type reference key origin status s) transfer-Moves
