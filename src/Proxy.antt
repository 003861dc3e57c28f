-- ===== src/Proxy.antt =====
-- The proxy of crates/halephant-core/src/proxy/ with the frames of messages/.
pub mod Messages
pub mod Intercept
pub mod Outbound
pub mod Transaction
pub mod Idle
mod Tests
