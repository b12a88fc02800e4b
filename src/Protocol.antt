-- ===== src/Protocol.antt =====
-- The wire protocol's data and rules: src/protocol.
pub mod Errors
pub mod States
pub mod Transitions
pub mod Handshake
