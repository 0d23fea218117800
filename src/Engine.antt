-- ===== src/Engine.antt =====
-- services/matching-engine/internal/market: the engine of one market, engine.go, event_loop.go and
-- ring_buffer.go.
pub mod Ring
pub mod State
pub mod Apply
pub mod Loop
pub mod Shutdown
