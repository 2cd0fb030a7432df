-- ===== src/Wallet/Tests.antt =====
-- The wallet's ledger at concrete inputs.
use diddi_pay_backend.Prelude.{◌≡◌, refl, true, false, none, some, [], ◌↔◌, ◌⊎◌, arith}
use diddi_pay_backend.Prelude.Int.{◌+ℤ◌, ◌-ℤ◌}
use diddi_pay_backend.Wallet.Errors.{ok, err, unbalanced_ledger}
use diddi_pay_backend.Wallet.Entities.{assert_balanced, sum_lines, p2p_transfer, deposit, completed}
use diddi_pay_backend.Wallet.Entities.Balanced.{IsBalanced, assert_balanced_lem}
use diddi_pay_backend.Wallet.Store.{
  Store, Transaction, caller_key, reversal_key, balance, get_account, get_by_idempotency_key,
  create_transaction, add_entry, entries_of,
}
use diddi_pay_backend.Wallet.Ledger.{
  post, write, add_entries, transfer, reverse_transaction, post_on_transaction,
}
use diddi_pay_backend.Wallet.Ledger.Post.{Posts, post-Posts}
use diddi_pay_backend.Wallet.Ledger.Undo.{post-post, reverse_transaction-post}
use diddi_pay_backend.Wallet.Ledger.Funds.{Moves, AllFunded, transfer-Moves, transfer-AllFunded}
use diddi_pay_backend.Wallet.Ledger.ZeroSum.{start, next, posted, IsZeroSum, Reachable-IsZeroSum}
use diddi_pay_backend.Wallet.Samples.{
  opening, deposited, deposit_lines, deposit_transaction, francs,
}

assert_balanced_lem_example :
    ((assert_balanced deposit_lines ≡ ok tt) ↔ IsBalanced deposit_lines)
    × ((assert_balanced deposit_lines ≡ ok tt)
        ⊎ (assert_balanced deposit_lines ≡ err unbalanced_ledger))
assert_balanced_lem_example = assert_balanced_lem deposit_lines

post-Posts_example :
    Posts deposit_lines
      (caller_key "deposit-1")
      opening
      (post deposit deposit_lines (caller_key "deposit-1") none completed opening)
post-Posts_example =
    post-Posts deposit deposit_lines (caller_key "deposit-1") none completed opening

deposit_posts :
    post deposit deposit_lines (caller_key "deposit-1") none completed opening
    ≡ (ok (deposit_transaction, false), deposited)
unfolding post write add_entries create_transaction add_entry assert_balanced get_by_idempotency_key
    get_account sum_lines ◌+ℤ◌ ◌-ℤ◌
deposit_posts = refl

post-post_example :
    post deposit [] (caller_key "deposit-1") none completed deposited
    ≡ (ok (deposit_transaction, true), deposited)
post-post_example =
    post-post deposit deposit deposit_lines [] (caller_key "deposit-1") none none completed
      completed opening deposited deposit_transaction false deposit_posts

Reachable-IsZeroSum_example :
    IsZeroSum (post deposit deposit_lines (caller_key "deposit-1") none completed opening).1
Reachable-IsZeroSum_example = Reachable-IsZeroSum (
    next (start {s = opening} refl)
      (posted deposit deposit_lines (caller_key "deposit-1") none completed))

transfer-Moves_example :
    Moves 1 2 200 deposited
      (transfer 1 2 (francs 200) p2p_transfer "rent" (caller_key "rent-1") none completed deposited)
transfer-Moves_example =
    transfer-Moves 1 2 (francs 200) p2p_transfer "rent" (caller_key "rent-1") none completed
      deposited

deposited-AllFunded : AllFunded deposited
unfolding balance get_account ◌+ℤ◌ ◌-ℤ◌
deposited-AllFunded k a h never = ground arith

transfer-AllFunded_example :
    AllFunded
      (transfer 1 2
        (francs 200)
        p2p_transfer
        "rent"
        (caller_key "rent-1")
        none
        completed
        deposited).1
transfer-AllFunded_example =
    transfer-AllFunded 1 2 (francs 200) p2p_transfer "rent" (caller_key "rent-1") none completed
      deposited deposited-AllFunded

abbrev reversal : Transaction
reversal = record deposit_transaction {
  id = 5;
  idempotency_key = reversal_key 4;
  reverses_transaction_id = some 4;
}

deposit_reverses : (reverse_transaction deposit_transaction "mistake" deposited).0 ≡ ok reversal
unfolding reverse_transaction post_on_transaction add_entries create_transaction add_entry
    assert_balanced get_by_idempotency_key get_account sum_lines entries_of ◌+ℤ◌ ◌-ℤ◌
deposit_reverses = refl

abbrev undone : Store
undone = (reverse_transaction deposit_transaction "mistake" deposited).1

deposit_undone : reverse_transaction deposit_transaction "mistake" deposited ≡ (ok reversal, undone)
deposit_undone = rw deposit_reverses refl

no_entries : entries_of 4 opening ≡ []
unfolding entries_of
no_entries = refl

reverse_transaction-post_example : (balance 1 undone).amount ≡ (balance 1 opening).amount
reverse_transaction-post_example =
    reverse_transaction-post deposit deposit_lines (caller_key "deposit-1") none completed "mistake"
      opening deposited undone deposit_transaction reversal no_entries deposit_posts deposit_undone
      1
