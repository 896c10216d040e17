-- ===== src/Coinjoin.antt =====
-- src/coinjoin.rs: the sessions and their manager.
pub mod Data
pub mod Session
pub mod Manager
