-- ===== src/Ipc.antt =====
-- The wire: src/ipc.
pub mod Framing
