-- ===== src/Matching.antt =====
-- What matcher.go keeps and computes: a book is two price-time queues and an index of their orders.
pub mod Prices
pub mod Slice
pub mod Orders
pub mod Levels
pub mod Place
pub mod TakeOut
pub mod Reduce
pub mod Book
pub mod Fresh
pub mod Sweep
pub mod Loop
pub mod Refine
pub mod Match
pub mod Fills
pub mod Uncrossed
pub mod Priority
pub mod Theorems
pub mod Crossing
pub mod Cancel
pub mod Depth
