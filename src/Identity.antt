-- ===== src/Identity.antt =====
-- workbench/src/artifact_identity.js: the receipts by which every part of the workbench is named.
-- `Json` has the values and `stableString`, `Fnv` the hash; the metadata records use both.
pub mod Json
pub mod Fnv
pub mod Values
pub mod Stable
pub mod Collision
mod Examples
