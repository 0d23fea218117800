-- ===== src/Snapshot.antt =====
-- services/matching-engine/internal/orderbook/snapshot.go: a book as a list of texts, and back.
pub mod Serialize
pub mod Restore
