-- ===== src/Tests.antt =====
-- Concrete books, engines and messages, runs of the code on them, and the theorems applied to them.
mod Books
mod Matching
mod Engine
mod Restoring
mod Command
mod Wallet
mod Orders
mod Taker
mod Lease
