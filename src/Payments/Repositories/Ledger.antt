-- ===== src/Payments/Repositories/Ledger.antt =====
-- `FinancialLedgerRepository` of payfund_app/modules/payments/infra/repositories.py: journals with two
-- entries each.
pub mod Replay
use diddi_pay_backend.Prelude.{
  ℕ, ◌++◌, Bool, false, ◌&&◌, String, str_eq, Option, none, some, [], ◌∷◌, ◌==◌, if◌then◌else◌,
  find_row, sum_rows,
}
use diddi_pay_backend.Prelude.Int.{ℤ, pos, ◌-ℤ◌}
use diddi_pay_backend.Payments.Payload.{
  EventReference, provider_event, reconciliation, refund_reference, payout_succeeded,
  settlement_reference,
}
use diddi_pay_backend.Payments.Database.{
  Database, JournalType, capture, processor_fee, refund, settlement, payout, LedgerAccount,
  FinancialJournalRecord, debit, credit,
}
use diddi_pay_backend.Payments.Session.{Action, ◌>>=◌, ◌>>◌, pure, gets, modify, fresh_id}

abbrev pub journal_rank : JournalType → ℕ
journal_rank capture = 0
journal_rank processor_fee = 1
journal_rank refund = 2
journal_rank settlement = 3
journal_rank payout = 4

abbrev pub reference_eq : EventReference → EventReference → Bool
reference_eq (provider_event a) (provider_event b) = str_eq a b
reference_eq (reconciliation a) (reconciliation b) = a == b
reference_eq (refund_reference a) (refund_reference b) = a == b
reference_eq (payout_succeeded a) (payout_succeeded b) = a == b
reference_eq (settlement_reference a) (settlement_reference b) = str_eq a b
reference_eq _ _ = false

abbrev pub is_event : JournalType → EventReference → FinancialJournalRecord → Bool
is_event event_type event_reference row =
    journal_rank row.event_type == journal_rank event_type
    && reference_eq row.event_reference event_reference

unfoldable pub find_event : JournalType → EventReference → Database → Option FinancialJournalRecord
find_event event_type event_reference db =
    find_row (is_event event_type event_reference) db.journals

-- The owner is an intent or a payout.
unfoldable pub write_journal :
    Option ℕ
    → Option ℕ
    → JournalType
    → EventReference
    → ℕ
    → String
    → LedgerAccount
    → LedgerAccount
    → Action FinancialJournalRecord
write_journal intent_id payout_id event_type event_reference amount currency debited credited = do
  id ← fresh_id
  let journal : FinancialJournalRecord = record {
    id = id;
    payment_intent_id = intent_id;
    payout_id = payout_id;
    event_type = event_type;
    event_reference = event_reference;
    amount = amount;
    currency = currency;
  }
  modify (λ db. record db {
    journals = db.journals ++ journal ∷ [];
    entries =
        db.entries
        ++ record {
          journal_id = id;
          account = debited;
          direction = debit;
          amount = amount;
          currency = currency;
        }
          ∷ record {
            journal_id = id;
            account = credited;
            direction = credit;
            amount = amount;
            currency = currency;
          }
          ∷ [];
  })
  pure journal

abbrev unless_found :
    Option FinancialJournalRecord → Action FinancialJournalRecord → Action FinancialJournalRecord
unless_found (some existing) write = pure existing
unless_found none write = write

-- `post`: an event that is on record is not written again.
unfoldable pub post :
    ℕ
    → JournalType
    → EventReference
    → ℕ
    → String
    → LedgerAccount
    → LedgerAccount
    → Action FinancialJournalRecord
unfolding find_event write_journal
post intent_id event_type event_reference amount currency debited credited = do
  existing ← gets (find_event event_type event_reference)
  unless_found existing (
      write_journal (some intent_id) none event_type event_reference amount currency debited
        credited)

unfoldable pub post_payout :
    ℕ
    → JournalType
    → EventReference
    → ℕ
    → String
    → LedgerAccount
    → LedgerAccount
    → Action FinancialJournalRecord
unfolding find_event write_journal
post_payout payout_id event_type event_reference amount currency debited credited = do
  existing ← gets (find_event event_type event_reference)
  unless_found existing (
      write_journal none (some payout_id) event_type event_reference amount currency debited
        credited)

abbrev pub owner_is : Option ℕ → ℕ → Bool
owner_is none id = false
owner_is (some owner) id = owner == id

abbrev pub journal_amount : ℕ → JournalType → FinancialJournalRecord → ℕ
journal_amount intent_id event_type row =
    if owner_is row.payment_intent_id intent_id
      && journal_rank row.event_type == journal_rank event_type
    then row.amount
    else 0

-- `totals.get(event_type, 0)`
unfoldable pub total : ℕ → JournalType → Database → ℕ
total intent_id event_type db = sum_rows (journal_amount intent_id event_type) db.journals

pub record Summary : Type 0 where
  pub gross_captured : ℕ
  pub refunded : ℕ
  pub processor_fees : ℕ
  pub net_expected : ℤ
  pub settled : ℕ
  pub outstanding : ℤ

unfoldable pub summary : ℕ → Database → Summary
unfolding total
summary intent_id db =
    let gross = total intent_id capture db in
    let refunds = total intent_id refund db in
    let fees = total intent_id processor_fee db in
    let settlements = total intent_id settlement db in
    record {
      gross_captured = gross;
      refunded = refunds;
      processor_fees = fees;
      net_expected = pos gross -ℤ pos refunds -ℤ pos fees;
      settled = settlements;
      outstanding = pos gross -ℤ pos refunds -ℤ pos fees -ℤ pos settlements;
    }

abbrev pub payout_amount : ℕ → JournalType → FinancialJournalRecord → ℕ
payout_amount payout_id event_type row =
    if owner_is row.payout_id payout_id && journal_rank row.event_type == journal_rank event_type
    then row.amount
    else 0

-- `payout_summary`, at one event type
unfoldable pub payout_total : ℕ → JournalType → Database → ℕ
payout_total payout_id event_type db = sum_rows (payout_amount payout_id event_type) db.journals
