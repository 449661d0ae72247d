-- ===== src/Lib.antt =====
-- The identity, closure, scope, edit-history and transport core of the workbench.
--
-- The workbench (workbench/src) gives every record a receipt: the 32-bit FNV-1a hash of a
-- canonical text of the record. On this stand the coordinates of blocks and the closures between
-- them, the scoped edges that carry closures, the log of edits with its undo, redo and merge, the
-- chunk index of raw bytes, and the transport log of autonomous worlds, in which every entry
-- names the receipt of the entry before. An event of that log carries a package of world snapshots
-- that a peer offers; the receiver verifies it, imports it, and admits what its subscription matches.
--
-- Files and the code they are about:
--   Prelude    shared tests, lists, texts, results, sorting; about no file of the program
--   Identity   workbench/src/artifact_identity.js: stableString (Json), fnv1a (Fnv)
--   Polyform   workbench/src/polyform_coordinate.js: fromLookupEntry, applyOverlay (Block),
--              closureFromBlocks, validateClosure, reverseClosure (Closure)
--   Scope      workbench/src/scope_multigraph.js: encodeScope, decodeScope (Codes), buildEdge,
--              validateEdge (Edge)
--   EditLog    workbench/src/edit_log.js (Log, Active), edit_replay.js (Replay), edit_merge.js
--              (Merge)
--   RawBinary  workbench/src/raw_binary_chunk_index.js: createChunks (Chunks),
--              createRawBinaryChunkIndex, projectRawBinaryChunkIndex (Index)
--   Transport  workbench/src/autonomous_world_transport_replay.js (Log), _checkpoint.js
--              (Checkpoint), _compaction.js (Compaction), _repair.js (Repair, RepairRun),
--              _availability.js (Availability, RepairPlan), _request_scheduler.js (Schedule,
--              ScheduledRepair); the
--              interface Adapter is what they use of autonomous_world_live_transport_adapter.js,
--              and World.Carrier.live_adapter fills it
--   World      workbench/src/autonomous_world_package_sync.js (Export, Package, Sync), _peer_exchange.js
--              (Peers, Exchanges), _subscription_court.js (Court), _live_transport_adapter.js
--              (Carrier), _version_history.js (History, HistoryWalk), _merge_reconciliation.js
--              (Conflicts, Merge, MergeAdmission), _interjection_overlay.js (Interjection,
--              OverlayViews), _overlay_admission.js (OverlayAdmission); the other files are about their composition
-- Functions keep the source's names in snake case: create_replay_log is createTransportReplayLog,
-- verify_replay_log is verifyTransportReplayLog, and so on, as each file's comments say.
--
-- Texts are lists of UTF-16 code units, with a missing text as the empty one. Numbers that the
-- code keeps unsigned are natural numbers and the others integers; `>>> 0` is written `% 2 ^ 32`.
-- A JavaScript object is a record, `null` and `undefined` results are `none`, a thrown error is a
-- value of a result type, and `clone` is the identity, since a value is never changed in place. An
-- update of an object gives a new one. Array.prototype.sort is a stable insertion sort;
-- localeCompare is a parameter `collate`. A receipt that is absent or null is `none`; where the
-- detection of issues tells the two apart, names_receipt of the adapter says whether an event has one.
-- The parser is taken to give a document for every source.
--
-- A package and an offer come from outside, so they are read as JSON values without a schema: an
-- absent property is `none` of Option Value, `===` is same_value, and a plain object that is used as a
-- table has the inherited names too (is_inherited). An error that the host raises when a property of
-- null is read is a text like the other errors. The parser of models, the opening of a world in
-- the browser, its look-up of a path, its receipts and the renderer are parameters (parse_document,
-- open_world, has_path, browser_receipts, render_plan, create_render_plan).
--
-- Fuel: a decimal of n is given n + 1 digits, which is enough because each digit divides by ten.
-- The loop over chunks is given as many steps as there are bytes, which is enough because a block
-- has at least one byte.
-- The replay of a history is given one step more than the graph has edges, which is enough because
-- a step leaves a world that was not visited.
--
-- Not modelled: values with non-integer numbers, consGeometry (floating point), the property
-- `__proto__` of a table that is written to, and the renderers, exporters, device adapters,
-- declarations and user interface of the workbench.
pub mod Prelude
pub mod Identity
pub mod Polyform
pub mod Scope
pub mod EditLog
pub mod Transport
pub mod RawBinary
pub mod World
