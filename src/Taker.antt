-- ===== src/Taker.antt =====
-- The controlled taker's limits, services/controlled-taker/internal/engine, with the proofs about them.
pub mod Breaker
pub mod Safety
pub mod Trips
pub mod Limits
