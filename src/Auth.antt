-- ===== src/Auth.antt =====
-- The password file and the addresses it is looked up by.
pub mod Address
pub mod Pgpass
mod Tests
