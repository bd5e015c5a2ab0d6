-- ===== src/Node.antt =====
-- include/vosfs/raft/node.hpp and src/raft/node.cpp: the Raft node. Each handler runs with the
-- node's mutex held, and is one step of the model.
pub mod Defs
pub mod Terms
pub mod Applying
pub mod Votes
pub mod Replication
pub mod Clients
pub mod Installing
pub mod Heartbeats
pub mod Start
pub mod Boot
pub mod Voting
pub mod Elections
pub mod Applied
pub mod Commits
pub mod Appends
pub mod Repeats
pub mod Restarts
pub mod Sending
pub mod Unsent
pub mod Receiving
pub mod Following
pub mod Grants
pub mod Examples
mod LeaderExamples
mod SendingExamples
