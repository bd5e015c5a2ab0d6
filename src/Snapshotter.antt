-- ===== src/Snapshotter.antt =====
-- include/vosfs/raft/snapshotter.hpp and src/raft/snapshotter.cpp: the snapshot's file, and how far
-- each peer has been sent it.
pub mod Defs
