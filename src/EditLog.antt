-- ===== src/EditLog.antt =====
-- workbench/src/edit_log.js, edit_replay.js and edit_merge.js: the log of proposals, commits, undos
-- and redos, its replay into a source text, and the merge of two logs.
pub mod Log
pub mod Active
pub mod Invariant
pub mod Refinement
pub mod History
pub mod Replay
pub mod Merge
pub mod MergeLaws
pub mod Groups
pub mod MergeComplete
mod Examples
