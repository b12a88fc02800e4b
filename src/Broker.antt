-- ===== src/Broker.antt =====
-- The broker's delivery core: src/broker.
pub mod Retry
pub mod Deadlines
pub mod Readiness
pub mod Routing
pub mod Db
pub mod Controls
pub mod Injections
pub mod Evolution
pub mod Delivery
pub mod Reaper
pub mod DeadLetter
pub mod Cancellation
pub mod Ledger
pub mod Liveness
pub mod Ensure
pub mod Schedules
pub mod ScheduleThrows
pub mod Scheduler
pub mod Recipients
pub mod Sequences
pub mod Send
pub mod Runs
