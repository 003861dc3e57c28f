-- ===== src/Pool.antt =====
-- The connection pool of crates/halephant-core/src/pool/.
pub mod Types
pub mod Limits
pub mod Totals
pub mod Checkout
pub mod Refill
pub mod Waits
pub mod Inner
pub mod Steps
mod Tests
