-- ===== src/RawBinary.antt =====
-- The chunk index of raw bytes: workbench/src/raw_binary_chunk_index.js.
pub mod Chunks
pub mod Index
pub mod Partition
pub mod Examples
