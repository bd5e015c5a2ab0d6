-- ===== src/Storage.antt =====
-- src/storage/node.cpp: a storage node, which keeps each block in a file of its own.
pub mod Defs
pub mod Paths
pub mod Blocks
mod Examples
