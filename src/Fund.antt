-- ===== src/Fund.antt =====
-- The funding module (payfund_app/modules/fund).
pub mod Loan
pub mod Status
pub mod Tables
pub mod Ports
pub mod Repositories
pub mod Campaigns
pub mod Loans
pub mod Collections
pub mod WalletClient
pub mod Raised
pub mod Samples
mod Tests
