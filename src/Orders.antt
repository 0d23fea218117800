-- ===== src/Orders.antt =====
-- The order service, services/order/internal: the orders' table and its transitions, with the proofs
-- about them.
pub mod Table
pub mod Repository
pub mod Lifecycle
pub mod Steps
pub mod Fills
pub mod Theorems
