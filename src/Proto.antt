-- ===== src/Proto.antt =====
-- The PostgreSQL wire protocol: crates/halephant-core/src/proto.
pub mod Types
pub mod Frontend
pub mod Chumsky
pub mod Primitives
pub mod Buffer
pub mod Codec
pub mod Backend
mod Tests
