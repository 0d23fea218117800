-- ===== src/Matcher.antt =====
-- services/matching-engine/internal/matcher/matcher.go, in three parts.
pub mod Search
pub mod Ops
pub mod Loop
