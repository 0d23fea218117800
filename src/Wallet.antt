-- ===== src/Wallet.antt =====
-- The wallet service, services/wallet/internal: its tables, its repositories and its operations.
pub mod Tables
pub mod Decimals
pub mod Repository
pub mod Reserve
pub mod Deposit
pub mod Validate
pub mod Settle
pub mod Serve
pub mod Lease
