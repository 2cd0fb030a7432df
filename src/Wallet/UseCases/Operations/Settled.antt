-- ===== src/Wallet/UseCases/Operations/Settled.antt =====
-- A deposit or a withdrawal of payfund_app/modules/wallet/application/use_cases.py is settled once.
use mathlib.Core.Option
use diddi_pay_backend.Prelude.{
  ℕ, ◌≡◌, ◌⊎◌, refl, sym, ap, ◌∙◌, Bool, false, ◌is◌, String, concat, Option, none, some, arith,
  Bool-cases, Option-cases, inl, inr, ◌==◌, ==_iff, find_row, find_row-passes, subst,
}
use diddi_pay_backend.Prelude.Rows.{find_row-update_rows}
use diddi_pay_backend.Wallet.Errors.{ok, transaction_not_found}
use diddi_pay_backend.Wallet.Money.{Money}
use diddi_pay_backend.Wallet.Entities.{
  TransactionStatus, pending, completed, failed, reversed, withdrawal,
}
use diddi_pay_backend.Wallet.Entities.Codes.{transaction_status_enum, transaction_type_enum}
use diddi_pay_backend.Wallet.Store.{
  Store, Transaction, lift, gets, branch, ◌>>=◌, ◌>>◌, get_transaction, mark, marked,
}
use diddi_pay_backend.Wallet.Store.Maintains.{Maintains}
use diddi_pay_backend.Wallet.Store.Ensures.{
  Ensures, Ends, Ensures-then, Ensures-bind, Ensures-branch, Ends-after,
}
use diddi_pay_backend.Wallet.Ledger.{reverse_transaction}
use diddi_pay_backend.Wallet.Gateways.{Environment}
use diddi_pay_backend.Wallet.UseCases.{or_raise, enqueue, publish, publish_completed}
use diddi_pay_backend.Wallet.UseCases.Operations.{
  publish_money, confirm, confirmer_operation, fail, echouer_operation,
}

-- The transaction, if it is there, waits for nothing.
abbrev pub IsSettled : ℕ → Store → Type 0
IsSettled id s = (t : Transaction) → get_transaction id s ≡ some t → (t.status is pending) ≡ false

marked_status :
    (now : ℕ) (status : TransactionStatus) (row : Transaction)
    → (marked now status row).status ≡ status
marked_status now pending row = refl
marked_status now completed row = refl
marked_status now failed row = refl
marked_status now reversed row = refl

marked_id :
    (now : ℕ) (status : TransactionStatus) (row : Transaction) → (marked now status row).id ≡ row.id
marked_id now pending row = refl
marked_id now completed row = refl
marked_id now failed row = refl
marked_id now reversed row = refl

from_map :
    (f : Transaction → Transaction) (o : Option Transaction) (t : Transaction)
    → Option.map f o ≡ some t
    → (r : Transaction) × (f r ≡ t)
from_map f none t h = ground arith
from_map f (some r) t h = (r, ground arith)

mark-IsSettled :
    (id : ℕ) (status : TransactionStatus) (s : Store)
    → (status is pending) ≡ false
    → IsSettled id (mark id status s).1
unfolding mark get_transaction
mark-IsSettled id status s done t h = subst (λ z. (z is pending) ≡ false) here done
  where
    found :
        Option.map (marked s.clock status) (find_row (λ row. row.id == id) s.transactions) ≡ some t
    found =
        sym (
          find_row-update_rows (λ row. row.id) (marked s.clock status) id id s.transactions
            (marked_id s.clock status)
          ∙ rw ((==_iff id id).1 refl) refl)
        ∙ h

    here : status ≡ t.status
    here =
        let (r, e) = from_map (marked s.clock status) _ t found in
        sym (marked_status s.clock status r) ∙ ap (λ (z : Transaction). z.status) e

-- The answer is the transaction as it stands, and it is settled.
abbrev pub IsFinal : ℕ → Transaction → Store → Type 0
IsFinal id t s = (get_transaction id s ≡ some t) × ((t.status is pending) ≡ false)

module _ (id : ℕ) where
  publish_completed-Maintains :
      (has_bus : Bool) (t : Transaction) (m : Money)
      → Maintains (IsSettled id) (publish_completed has_bus t m)
  unfolding publish_completed enqueue publish get_transaction
  publish_completed-Maintains has_bus t m = record {
    at = λ s h. elim (Bool-cases (t.status is completed)) [
      | inl yes_done ↦
          rw yes_done
            (elim (Bool-cases has_bus) [ inl bus ↦ rw bus h | inr none_given ↦ rw none_given h ])
      | inr other ↦ rw other h
    ];
  }

  publish_money-Maintains :
      (has_bus : Bool) (t : Transaction) (o : Option Money)
      → Maintains (IsSettled id) (publish_money has_bus t o)
  publish_money-Maintains has_bus t none = record { at = λ s h. h }
  publish_money-Maintains has_bus t (some m) = publish_completed-Maintains has_bus t m

  reread :
      (s : Store)
      → IsSettled id s
      → Ends
          (IsFinal id)
          ((gets (get_transaction id) >>= λ found. lift (or_raise found transaction_not_found)) s)
  reread s h = elim (Option-cases (get_transaction id s)) [
    | inl absent ↦ rw absent tt
    | inr (t, found) ↦ rw found (found, h t found)
  ]

found_id : (id : ℕ) (t : Transaction) (s : Store) → get_transaction id s ≡ some t → t.id ≡ id
unfolding get_transaction
found_id id t s h = (==_iff t.id id).0 (find_row-passes (λ row. row.id == id) s.transactions t h)

confirm-IsFinal :
    (env : Environment) (t : Transaction) (mode : String)
    → Ensures (IsFinal t.id) (confirm env t mode)
unfolding confirm mark
confirm-IsFinal env t mode = Ensures-then _ _ (λ u. record {
  at = λ s.
      Ends-after (IsFinal t.id)
        (publish_money env.has_bus (record t { status = completed }) t.money) _
        (publish_money-Maintains t.id env.has_bus _ t.money) (λ v. reread t.id) _
        (mark-IsSettled t.id completed s refl);
})

marks :
    (id : ℕ) (status : TransactionStatus)
    → (status is pending) ≡ false
    → Ensures (λ (u : Unit {0}) s. IsSettled id s) (mark id status)
unfolding mark
marks id status done = record { at = λ s. mark-IsSettled id status s done }

fail-IsFinal : (t : Transaction) (mode : String) → Ensures (IsFinal t.id) (fail t mode)
unfolding fail
fail-IsFinal t mode =
    Ensures-bind
      (branch (t.transaction_type is withdrawal)
        (reverse_transaction t (concat "wallet:reversal:" mode) >> mark t.id reversed)
        (mark t.id failed))
      _
      (Ensures-branch (t.transaction_type is withdrawal)
        (reverse_transaction t (concat "wallet:reversal:" mode) >> mark t.id reversed)
        (mark t.id failed)
        (Ensures-then (reverse_transaction t (concat "wallet:reversal:" mode))
          (λ r. mark t.id reversed) (λ r. marks t.id reversed refl))
        (marks t.id failed refl))
      (λ u s h. reread t.id s h)

module _ (id : ℕ) where
  confirmer-IsFinal :
      (env : Environment) (mode : String) → Ensures (IsFinal id) (confirmer_operation env id mode)
  unfolding confirmer_operation
  confirmer-IsFinal env mode = record {
    at = λ s. elim (Option-cases (get_transaction id s)) [
      | inl absent ↦ rw absent tt
      | inr (t, found) ↦ rw found (elim (Bool-cases (t.status is pending)) [
        | inl waits ↦ rw waits (
            subst (λ k. Ends (IsFinal k) (confirm env t mode s)) (found_id id t s found)
              ((confirm-IsFinal env t mode).at s))
        | inr done ↦ rw done (found, done)
      ])
    ];
  }

  echouer-IsFinal : (mode : String) → Ensures (IsFinal id) (echouer_operation id mode)
  unfolding echouer_operation
  echouer-IsFinal mode = record {
    at = λ s. elim (Option-cases (get_transaction id s)) [
      | inl absent ↦ rw absent tt
      | inr (t, found) ↦ rw found (elim (Bool-cases (t.status is pending)) [
        | inl waits ↦ rw waits (
            subst (λ k. Ends (IsFinal k) (fail t mode s)) (found_id id t s found)
              ((fail-IsFinal t mode).at s))
        | inr done ↦ rw done (found, done)
      ])
    ];
  }

  -- A settled transaction: both operations answer it and write nothing.
  settled_stays :
      (env : Environment) (mode : String) (t : Transaction) (s : Store)
      → IsFinal id t s
      → (confirmer_operation env id mode s ≡ (ok t, s)) × (echouer_operation id mode s ≡ (ok t, s))
  unfolding confirmer_operation echouer_operation
  settled_stays env mode t s (found, done) = rw (found, done) (refl, refl)

  -- A deposit or withdrawal that was confirmed, or was marked as failed, is settled once: a second
  -- confirmation and a later failure, with any gateways, answer the same transaction and write
  -- nothing.
  pub confirmer_operation-once :
      (env env' : Environment) (mode mode' : String) (t : Transaction) (s s' : Store)
      → (confirmer_operation env id mode s ≡ (ok t, s'))
        ⊎ (echouer_operation id mode s ≡ (ok t, s'))
      → (confirmer_operation env' id mode' s' ≡ (ok t, s'))
        × (echouer_operation id mode' s' ≡ (ok t, s'))
  confirmer_operation-once env env' mode mode' t s s' (inl h) =
      settled_stays env' mode' t s'
        (subst (Ends (IsFinal id)) h ((confirmer-IsFinal env mode).at s))
  confirmer_operation-once env env' mode mode' t s s' (inr h) =
      settled_stays env' mode' t s' (subst (Ends (IsFinal id)) h ((echouer-IsFinal mode).at s))
