-- ===== src/Persister.antt =====
-- include/vosfs/raft/persister.hpp, src/raft/persister.cpp and the part of
-- include/vosfs/common/util/rocksdb_engine.hpp that they call.
pub mod Engine
pub mod Defs
pub mod Entries
pub mod Storage
pub mod HardStates
pub mod Samples
mod Examples
