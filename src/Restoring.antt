-- ===== src/Restoring.antt =====
-- What `Restore` makes of a snapshot.
pub mod Insert
pub mod Orders
pub mod Run
pub mod Times
pub mod RoundTrip
