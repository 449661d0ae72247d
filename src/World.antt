-- ===== src/World.antt =====
-- The packages of autonomous worlds on their way between peers: what a receiver checks, what it
-- admits, and the adapter behind the transport log (workbench/src/autonomous_world_*.js).
pub mod Package
pub mod Sync
pub mod History
pub mod HistoryWalk
pub mod HistoryLaws
pub mod HistoryInvariant
mod HistoryExamples
pub mod Export
pub mod ExportLaws
pub mod Delivery
mod DeliveryExamples
pub mod Conflicts
pub mod Interjection
pub mod OverlayViews
pub mod OverlayAdmission
pub mod Links
mod LinkExamples
pub mod Merge
pub mod MergeAdmission
pub mod MergeReading
pub mod Agreement
pub mod MergeLaws
mod MergeExamples
pub mod Peers
pub mod Exchanges
pub mod Court
pub mod Carrier
pub mod Witnesses
pub mod Verified
pub mod Admission
pub mod Admitted
pub mod Offering
mod Examples
