-- ===== src/Sql.antt =====
-- The statement classifier: crates/halephant-core/src/sql.
pub mod Ast
pub mod Tokens
pub mod Cursor
pub mod Settings
pub mod Parser
mod Tests
