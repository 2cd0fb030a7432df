-- ===== src/Wallet/Requests/ZeroSum.antt =====
-- The ledger of payfund_app/modules/wallet under its requests.
use diddi_pay_backend.Prelude.{ap, ◌∙◌, String, List}
use diddi_pay_backend.Wallet.Errors.{Result, ok, err}
use diddi_pay_backend.Wallet.Entities.{PostingLine}
use diddi_pay_backend.Wallet.Store.{Store, Transaction, net}
use diddi_pay_backend.Wallet.Store.Maintains.{Maintains, After}
use diddi_pay_backend.Wallet.Pins.{set_pin, register_failure, clear_lock, store_hash}
use diddi_pay_backend.Wallet.Ledger.{transfer, post_on_transaction, reverse_transaction}
use diddi_pay_backend.Wallet.Ledger.Transfer.{transfer-Transfers}
use diddi_pay_backend.Wallet.Ledger.Reversal.{
  Reverses, reverse_transaction-Reverses, PostsOn, post_on_transaction-PostsOn,
}
use diddi_pay_backend.Wallet.Ledger.Entries.{by_header}
use diddi_pay_backend.Wallet.Ledger.ZeroSum.{IsZeroSum, added, after_transfer}
use diddi_pay_backend.Wallet.Requests.Laws.{Invariant}
use diddi_pay_backend.Wallet.Requests.Reached.{Reached, Reached-holds}

After-all : {A : Type 0} (o : Result A × Store) → IsZeroSum o.1 → After IsZeroSum o
After-all (ok a, s) h = h
After-all (err e, s) h = tt

posts_on-Maintains :
    (t : Transaction) (lines : List PostingLine) → Maintains IsZeroSum (post_on_transaction t lines)
posts_on-Maintains t lines = record {
  at = λ s h. go s (post_on_transaction t lines s) (post_on_transaction-PostsOn t lines s) h;
}
  where
    go :
        (s : Store) (o : Result (Unit {0}) × Store)
        → PostsOn t.id lines s o
        → IsZeroSum s
        → After IsZeroSum o
    go s (ok u, s') (b, k) h = added s s' t.id lines b (ap (λ x. x.entries) k) h
    go s (err e, s') k h = tt

reverses-Maintains :
    (t : Transaction) (reference : String) → Maintains IsZeroSum (reverse_transaction t reference)
reverses-Maintains t reference = record {
  at = λ s h.
      go s (reverse_transaction t reference s) (reverse_transaction-Reverses t reference s) h;
}
  where
    go :
        (s : Store) (o : Result Transaction × Store)
        → Reverses t reference s o
        → IsZeroSum s
        → After IsZeroSum o
    go s (ok r, s') (b, k, same, more) h = added s s' r.id _ b k h
    go s (err e, s') k h = tt

IsZeroSum-Invariant : Invariant IsZeroSum
unfolding set_pin register_failure clear_lock store_hash
IsZeroSum-Invariant = record {
  frame = λ s s' e p h q. ap (net (by_header q)) e ∙ h q;
  transfers = λ from to amount type reference key origin status. record {
    at = λ s h. After-all (transfer from to amount type reference key origin status s) (
        after_transfer from to amount reference key s
          (transfer from to amount type reference key origin status s)
          (transfer-Transfers from to amount type reference key origin status s) h);
  };
  posts_on = posts_on-Maintains;
  reverses = reverses-Maintains;
  sets_pin = λ id hash salt. record { at = λ s h. h };
  clears_lock = λ row. record { at = λ s h. h };
  stores_hash = λ row hash salt. record { at = λ s h. h };
}

-- In every wallet that requests lead to from one where credits and debits cancel, they cancel:
-- those of any choice of transactions and currencies. The requests are those of the use cases
-- (accounts, PINs, transfers, payments, deposits, withdrawals, confirmations, reconciliations,
-- conversions, the calls of other modules), each in a session that is rolled back if it raises,
-- with any gateways.
pub Reached-IsZeroSum : {s : Store} → Reached IsZeroSum s → IsZeroSum s
Reached-IsZeroSum = Reached-holds IsZeroSum-Invariant
