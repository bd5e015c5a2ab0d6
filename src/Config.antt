-- ===== src/Config.antt =====
-- The configurations of the nodes and of the client: include/vosfs/*/config.hpp.
pub mod Files
pub mod Raft
pub mod RaftBuilder
pub mod RaftLoading
pub mod Ui
pub mod UiLoading
pub mod Storage
mod Examples
