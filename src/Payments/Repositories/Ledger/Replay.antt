-- ===== src/Payments/Repositories/Ledger/Replay.antt =====
-- A financial event that is posted again
-- (payfund_app/modules/payments/infra/repositories.py, `FinancialLedgerRepository.post`).
use diddi_pay_backend.Prelude.{
  ℕ, ◌≡◌, refl, ◌&&◌, ◌==◌, ==_iff, Bool, true, String, eq_iff, none, some, List, [], ◌∷◌, ◌++◌,
  arith, find_row, Option-cases, inl, inr, subst,
}
use diddi_pay_backend.Payments.Errors.{Result, ok, err}
use diddi_pay_backend.Payments.Payload.{
  EventReference, provider_event, reconciliation, refund_reference, payout_succeeded,
  settlement_reference,
}
use diddi_pay_backend.Payments.Database.{JournalType, LedgerAccount, FinancialJournalRecord}
use diddi_pay_backend.Payments.Session.{Session}
use diddi_pay_backend.Payments.Repositories.Ledger.{
  journal_rank, reference_eq, is_event, find_event, write_journal, post,
}

reference_itself : (e : EventReference) → reference_eq e e ≡ true
reference_itself (provider_event a) = (eq_iff a a).1 refl
reference_itself (reconciliation a) = ground arith
reference_itself (refund_reference a) = ground arith
reference_itself (payout_succeeded a) = ground arith
reference_itself (settlement_reference a) = (eq_iff a a).1 refl

find_row-at_end :
    (p : FinancialJournalRecord → Bool) (rows : List FinancialJournalRecord)
    (j : FinancialJournalRecord)
    → find_row p rows ≡ none
    → p j ≡ true
    → find_row p (rows ++ j ∷ []) ≡ some j
find_row-at_end p [] j h k = ground arith
find_row-at_end p (x ∷ rows) j h k = ground (arith, find_row-at_end p rows j)

module _ (t : JournalType) (e : EventReference) where
  itself : (journal_rank t == journal_rank t && reference_eq e e) ≡ true
  itself = rw (reference_itself e, (==_iff (journal_rank t) (journal_rank t)).1 refl) refl

  -- The event is on record after the call.
  abbrev OnRecord : Result FinancialJournalRecord × Session → Type 0
  OnRecord (ok j, s') = find_event t e s'.db ≡ some j
  OnRecord (err x, s') = Unit

  post-OnRecord :
      (intent_id amount : ℕ) (currency : String) (debited credited : LedgerAccount) (s : Session)
      → OnRecord (post intent_id t e amount currency debited credited s)
  unfolding post write_journal find_event
  post-OnRecord intent_id amount currency debited credited s =
      elim (Option-cases (find_event t e s.db)) [
        | inl absent ↦ rw absent (find_row-at_end (is_event t e) s.db.journals _ absent itself)
        | inr (j, found) ↦ rw found found
      ]

  -- A financial event that was posted, posted again under its type and reference with any owner,
  -- amount, currency and accounts: the journal on record comes back and nothing is written.
  pub post_lem :
      (intent_id amount : ℕ) (currency : String) (debited credited : LedgerAccount) (s s' : Session)
      (j : FinancialJournalRecord)
      → post intent_id t e amount currency debited credited s ≡ (ok j, s')
      → (intent_id' amount' : ℕ) (currency' : String) (debited' credited' : LedgerAccount)
      → post intent_id' t e amount' currency' debited' credited' s' ≡ (ok j, s')
  unfolding post
  post_lem intent_id amount currency debited credited s s' j h intent_id' amount' currency' debited'
        credited' =
      rw (subst OnRecord h (post-OnRecord intent_id amount currency debited credited s)) refl
