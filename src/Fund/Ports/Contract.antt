-- ===== src/Fund/Ports/Contract.antt =====
-- What payfund_app/modules/fund relies on of the wallet that it calls
-- (payfund_app/shared_kernel/contracts/wallet_provider.py): an abstract ledger of balances by account.
use diddi_pay_backend.Prelude.{ℕ, ◌≡◌, Bool, true, false, String, Option, ◌==◌, if◌then◌else◌}
use diddi_pay_backend.Prelude.Int.{ℤ, pos, ◌+ℤ◌, ◌-ℤ◌}
use diddi_pay_backend.Wallet.Errors.{Result, ok, err}
use diddi_pay_backend.Wallet.Entities.{TransactionType}
use diddi_pay_backend.Fund.Ports.{WalletServicePort}

abbrev pub share_of : ℕ → ℕ → ℤ → ℤ
share_of account k amount = if account == k then amount else pos 0

-- What a payment from one account to another adds to the balance of account `k`.
abbrev pub payment_to : ℕ → ℕ → ℤ → ℕ → ℤ
payment_to from to amount k = share_of to k amount -ℤ share_of from k amount

module _ {W : Type 0} (wallet : WalletServicePort W) where
  -- No balance changes.
  abbrev pub Same : W → W → Type 0
  Same w w' = (k : ℕ) → wallet.solde k w' ≡ wallet.solde k w

  abbrev pub Paid : ℕ → ℕ → ℤ → W → W → Type 0
  Paid from to amount w w' =
      (k : ℕ) → wallet.solde k w' ≡ wallet.solde k w +ℤ payment_to from to amount k

  -- A payment whose key is known, and one that is new.
  abbrev pub PaidUnless : Bool → ℕ → ℕ → ℤ → W → W → Type 0
  PaidUnless true from to amount w w' = Same w w'
  PaidUnless false from to amount w w' = Paid from to amount w w'

  abbrev pub Payment : Bool → ℕ → ℕ → ℤ → W → Result ℕ × W → Type 0
  Payment known from to amount w (ok t, w') = PaidUnless known from to amount w w'
  Payment known from to amount w (err e, w') = Same w w'

  pub record MovesMoney : Type 0 where
    -- Whether a transaction with the key exists.
    pub knows : String → W → Bool
    pub debits :
        (from to : ℕ) (amount : ℤ) (reference key : String) (type : TransactionType)
        (origin : Option String) (w : W)
        → Payment
            (knows key w)
            from
            to
            amount
            w
            (wallet.debiter from to amount reference key type origin w)
    pub credits :
        (to from : ℕ) (amount : ℤ) (reference key : String) (type : TransactionType)
        (origin : Option String) (w : W)
        → Payment
            (knows key w)
            from
            to
            amount
            w
            (wallet.crediter to from amount reference key type origin w)
    -- An account that is opened holds nothing, and its opening makes no key known.
    pub opens : (user_id : ℕ) (w : W) → Same w (wallet.compte_de_utilisateur user_id w).1
    pub opens_knows :
        (user_id : ℕ) (w : W) (key : String)
        → knows key (wallet.compte_de_utilisateur user_id w).1 ≡ knows key w
