-- ===== src/Funds.antt =====
-- The proofs about the wallet service.
pub mod State
pub mod Steps
pub mod Moves
pub mod Consume
pub mod Legs
pub mod Ledger
pub mod Records
pub mod Settle
pub mod Reserve
pub mod Release
pub mod Deposit
pub mod Initialize
pub mod Serve
pub mod Replay
pub mod Updates
pub mod Lease
pub mod Fencing
