-- ===== src/Broker/Delivery.antt =====
-- src/broker/delivery.ts: checkpoint pulls, marking, acknowledgements, replies and redelivery.
pub mod Sessions
pub mod Checkpoint
pub mod Presented
pub mod Due
pub mod Ack
pub mod Redeliver
pub mod Mark
pub mod Reply
pub mod Evolve
pub mod Moves
pub mod Numbered
pub mod Acked
pub mod Repeated
pub mod Remark
