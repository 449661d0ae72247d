-- ===== src/Polyform.antt =====
-- workbench/src/polyform_coordinate.js: coordinates of declared objects, and closures between two
-- coordinates. `Block` has the coordinates, `Closure` the closures; the others prove.
pub mod Block
pub mod Closure
pub mod Validity
pub mod Delta
pub mod Reversal
pub mod Overlay
pub mod Places
pub mod Examples
