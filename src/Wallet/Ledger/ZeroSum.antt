-- ===== src/Wallet/Ledger/ZeroSum.antt =====
-- The ledger of payfund_app/modules/wallet/application/ledger.py as a system of steps, and what holds of
-- every ledger it reaches.
use diddi_pay_backend.Prelude.{
  ℕ, ◌≡◌, ap, sym, ◌∙◌, Bool, true, false, String, Option, List, [], ◌++◌, map, subst,
}
use diddi_pay_backend.Prelude.Int.{pos}
use diddi_pay_backend.Wallet.Errors.{Result, ok, err}
use diddi_pay_backend.Wallet.Money.{Money, Currency}
use diddi_pay_backend.Wallet.Entities.{
  AccountType, AccountStatus, PostingLine, TransactionType, TransactionStatus,
}
use diddi_pay_backend.Wallet.Entities.Balanced.{IsBalanced, zero_plus}
use diddi_pay_backend.Wallet.Store.{
  Store, Transaction, TransactionKey, create_account, set_status, mark, entry_of, net,
}
use diddi_pay_backend.Wallet.Ledger.{post, transfer, reverse_transaction, post_on_transaction}
use diddi_pay_backend.Wallet.Ledger.Entries.{by_header, net-append, net-balanced}
use diddi_pay_backend.Wallet.Ledger.Post.{Posts, post-Posts}
use diddi_pay_backend.Wallet.Ledger.Reversal.{
  Reverses, reverse_transaction-Reverses, PostsOn, post_on_transaction-PostsOn,
}
use diddi_pay_backend.Wallet.Ledger.Transfer.{Transfers, transfer-Transfers}

-- One call. The caller of `post_sur_transaction` and `contre_passer` keeps what they wrote only if they
-- did not raise; the other calls restore the store themselves.
pub data Step : Store → Store → Type 0 where
  opened :
      {s : Store} (user_id : Option ℕ) (account_type : AccountType) (currency : Currency)
      (reference : Option String) (allows : Bool)
      → Step s (create_account user_id account_type currency reference allows s).1
  status_set : {s : Store} (id : ℕ) (status : AccountStatus) → Step s (set_status id status s).1
  marked : {s : Store} (id : ℕ) (status : TransactionStatus) → Step s (mark id status s).1
  posted :
      {s : Store} (type : TransactionType) (lines : List PostingLine) (key : TransactionKey)
      (origin : Option String) (status : TransactionStatus)
      → Step s (post type lines key origin status s).1
  transferred :
      {s : Store} (from to : ℕ) (amount : Money) (type : TransactionType) (reference : String)
      (key : TransactionKey) (origin : Option String) (status : TransactionStatus)
      → Step s (transfer from to amount type reference key origin status s).1
  posted_on :
      {s s' : Store} (t : Transaction) (lines : List PostingLine)
      → post_on_transaction t lines s ≡ (ok tt, s')
      → Step s s'
  reversed :
      {s s' : Store} (t r : Transaction) (reference : String)
      → reverse_transaction t reference s ≡ (ok r, s')
      → Step s s'

pub data Reachable : Store → Type 0 where
  start : {s : Store} → s.entries ≡ [] → Reachable s
  next : {s s' : Store} → Reachable s → Step s s' → Reachable s'

-- Whichever transactions and currencies are counted, credits and debits cancel.
abbrev pub IsZeroSum : Store → Type 0
IsZeroSum s = (p : ℕ → Currency → Bool) → net (by_header p) s.entries ≡ pos 0

-- A store with the entries of balanced lines added, or with the entries it had.
pub added :
    (s s' : Store) (tx : ℕ) (lines : List PostingLine)
    → IsBalanced lines
    → s'.entries ≡ s.entries ++ map (entry_of tx) lines
    → IsZeroSum s
    → IsZeroSum s'
added s s' tx lines b e h p =
    ap (net (by_header p)) e
    ∙ net-append (by_header p) s.entries (map (entry_of tx) lines)
    ∙ rw (h p, net-balanced p tx lines b) (zero_plus (pos 0))

after_post :
    (lines : List PostingLine) (key : TransactionKey) (s : Store)
    (o : Result (Transaction × Bool) × Store)
    → Posts lines key s o
    → IsZeroSum s
    → IsZeroSum o.1
after_post lines key s (ok (t, false), s') (b, absent, k, e, same, more) = added s s' t.id lines b e
after_post lines key s (ok (t, true), s') (k, e) = subst IsZeroSum (sym e)
after_post lines key s (err x, s') e = subst IsZeroSum (sym e)

pub after_transfer :
    (from to : ℕ) (amount : Money) (reference : String) (key : TransactionKey) (s : Store)
    (o : Result (Transaction × Bool) × Store)
    → Transfers from to amount reference key s o
    → IsZeroSum s
    → IsZeroSum o.1
after_transfer from to amount reference key s (ok (t, false), s') (a, b, can, h) =
    after_post _ key s (ok (t, false), s') h
after_transfer from to amount reference key s (ok (t, true), s') (k, e) = subst IsZeroSum (sym e)
after_transfer from to amount reference key s (err x, s') e = subst IsZeroSum (sym e)

step-IsZeroSum : {s s' : Store} → Step s s' → IsZeroSum s → IsZeroSum s'
unfolding create_account set_status mark
step-IsZeroSum (opened user_id account_type currency reference allows) h = h
step-IsZeroSum (status_set id status) h = h
step-IsZeroSum (marked id status) h = h
step-IsZeroSum {s = s} (posted type lines key origin status) h =
    after_post lines key s (post type lines key origin status s)
      (post-Posts type lines key origin status s) h
step-IsZeroSum {s = s} (transferred from to amount type reference key origin status) h =
    after_transfer from to amount reference key s
      (transfer from to amount type reference key origin status s)
      (transfer-Transfers from to amount type reference key origin status s) h
step-IsZeroSum {s = s} {s' = s'} (posted_on t lines e) h =
    ground_on (subst (PostsOn t.id lines s) e (post_on_transaction-PostsOn t lines s))
  where
    ground_on : PostsOn t.id lines s (ok tt, s') → IsZeroSum s'
    ground_on (b, k) = added s s' t.id lines b (ap (λ x. x.entries) k) h
step-IsZeroSum {s = s} {s' = s'} (reversed t r reference e) h =
    undone (subst (Reverses t reference s) e (reverse_transaction-Reverses t reference s))
  where
    undone : Reverses t reference s (ok r, s') → IsZeroSum s'
    undone (b, k, same, more) = added s s' r.id _ b k h

-- In every ledger that calls reach from one without entries, credits and debits cancel: those of
-- any choice of transactions and currencies, so those of each transaction and those of each
-- currency.
pub Reachable-IsZeroSum : {s : Store} → Reachable s → IsZeroSum s
Reachable-IsZeroSum (start e) = λ p. ap (net (by_header p)) e
Reachable-IsZeroSum (next r step) = step-IsZeroSum step (Reachable-IsZeroSum r)
