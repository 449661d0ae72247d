-- ===== src/Scope.antt =====
-- workbench/src/scope_multigraph.js: scopes, and edges between coordinates in a scope.
pub mod Codes
pub mod Edge
pub mod Laws
pub mod Validity
mod Examples
