-- ===== src/Api.antt =====
-- The messages of api/raftpb/raft.proto. A field that a message lacks has its default value.
mod Files
mod Consensus
mod Blocks
mod Users
pub use Files.*
pub use Consensus.*
pub use Blocks.*
pub use Users.*
