-- ===== src/Statements.antt =====
-- Prepared statements: what a server connection holds (connections/server.rs), the store that all
-- clients share (pool/prepared.rs), and each client's names (proxy/prepared.rs).
pub mod Lru
pub mod Replies
pub mod Store
pub mod Client
mod Tests
