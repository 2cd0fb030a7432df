-- ===== src/Payments/Repositories.antt =====
-- The repositories of payfund_app/modules/payments/infra/repositories.py over the tables. A `select`
-- is a search through the rows; `save` writes the columns that the source writes. Of the database's
-- constraints those on the idempotency keys are modelled: a second row with one is refused.
pub mod Intents
pub mod Attempts
pub mod Events
pub mod Refunds
pub mod Outbox
pub mod Payouts
pub mod Ledger
pub mod Laws
