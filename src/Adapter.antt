-- ===== src/Adapter.antt =====
-- What an adapter may claim and what the broker awards it: src/adapter and src/adapter-broker.
pub mod Capabilities
pub mod Tier
pub mod Evidence
pub mod Lifecycle
pub mod Registry
pub mod Registration
pub mod Awards
