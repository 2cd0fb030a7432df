-- ===== src/Wallet.antt =====
-- The wallet module (payfund_app/modules/wallet).
pub mod Money
pub mod Errors
pub mod Entities
pub mod Store
pub mod Ledger
pub mod Pins
pub mod Gateways
pub mod UseCases
pub mod Exchange
pub mod Service
pub mod Requests
pub mod Samples
pub mod Tests
