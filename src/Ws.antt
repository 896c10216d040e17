-- ===== src/Ws.antt =====
-- The WebSocket chat of src/ws.rs: who may connect, and the connections.
pub mod Token
pub mod Secrets
pub mod Socket
pub mod Chat
pub mod Alone
pub mod Service
