-- ===== src/RaftLog.antt =====
-- include/vosfs/raft/log.hpp and src/raft/log.cpp: the replicated log behind the last snapshot.
pub mod Defs
pub mod Indices
pub mod Changes
mod Examples
