-- ===== src/Safety.antt =====
-- What the engine of a market keeps: a well-formed, uncrossed book, one answer for each message, and
-- its rules on redelivery, modes and halts.
pub mod Apply
pub mod Rejects
pub mod Loop
pub mod Run
pub mod Denials
pub mod Modes
pub mod Ring
pub mod Drain
pub mod Shutdown
