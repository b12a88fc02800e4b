-- ===== src/Tests.antt =====
-- Examples: the operations run on small tables, and the theorems applied to them.
pub mod Data
pub mod DeliveryRuns
pub mod ReaperRuns
pub mod ProtocolRuns
pub mod FramingRuns
pub mod LedgerRuns
pub mod NameRuns
pub mod SendRuns
pub mod AdapterRuns
pub mod ScheduleRuns
