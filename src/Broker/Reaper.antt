-- ===== src/Broker/Reaper.antt =====
-- src/broker/reaper.ts: the periodic sweep over deadlines, leases and idle sessions.
pub mod AckTimeouts
pub mod Expiry
pub mod IdleSessions
pub mod Sweep
pub mod Evolve
pub mod Spared
pub mod Tombstones
pub mod Operator
