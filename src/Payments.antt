-- ===== src/Payments.antt =====
-- The payment orchestration module (payfund_app/modules/payments).
pub mod Status
pub mod Transitions
pub mod Errors
pub mod Money
pub mod Entities
pub mod Payload
pub mod Database
pub mod Session
pub mod Repositories
pub mod Ports
pub mod Routing
pub mod Accounting
pub mod Samples
pub mod Refunds
pub mod Webhooks
pub mod Deliveries
pub mod Tests
pub mod Intents
pub mod Payouts
pub mod Reconciliation
