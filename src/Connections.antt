-- ===== src/Connections.antt =====
-- The preparation of a server connection for another client, and its startup options:
-- crates/halephant-core/src/connections/.
pub mod Reset
pub mod Options
mod Tests
