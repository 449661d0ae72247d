-- ===== src/Transport.antt =====
-- The transport of autonomous worlds: the hash-chained replay log, checkpoints of it, compaction,
-- repair, and the schedule of requests (workbench/src/autonomous_world_transport_*.js).
pub mod Adapter
pub mod Log
pub mod Chain
pub mod Unique
pub mod Resume
pub mod Resumable
pub mod Compaction
pub mod Repair
pub mod RepairRun
pub mod RepairLaws
pub mod Checkpoint
pub mod Availability
pub mod RepairPlan
pub mod Schedule
pub mod ScheduledRepair
pub mod AvailabilityLaws
pub mod ScheduleLaws
mod ScheduleExamples
pub mod Examples
