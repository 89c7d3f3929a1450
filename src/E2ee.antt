-- ===== src/E2ee.antt =====
-- The endpoint journal of encrypted sessions (experimental/e2ee).
pub mod Db
pub mod Grants
pub mod Admit
pub mod Session
pub mod Revoke
pub mod History
pub mod Executor
mod Tests
pub mod Vault
