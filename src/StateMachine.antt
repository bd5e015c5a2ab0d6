-- ===== src/StateMachine.antt =====
-- include/vosfs/raft/state_machine.hpp and src/raft/state_machine.cpp: the file tree that the
-- replicated log drives. One module for each group of operations, and one for each law.
pub mod Defs
pub mod Mkdir
pub mod Upload
pub mod Queries
pub mod Apply
pub mod Consistency
pub mod Preservation
pub mod Agreement
pub mod Listing
pub mod Additions
pub mod Snapshots
pub mod Placement
pub mod Files
pub mod Pending
pub mod Divergence
mod Examples
