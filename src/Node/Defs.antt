-- ===== src/Node/Defs.antt =====
-- The state of `RaftNode`, and what it uses that the program does not implement.
use vosfs.Common.{ℕ, List, Bool, true, false, Option, Str, length}
use vosfs.Common.Map.{Map}
use vosfs.Api.{HardState, LogEntry, EntryCommand, Snapshot}
use vosfs.Persister.Engine.{Engine, Codec}
use vosfs.Snapshotter.Defs.{Files, Snapshotter}
use vosfs.StateMachine.Defs.{StateMachine}
use vosfs.RaftLog.Defs.{RaftLog}

-- The database, the file system, protobuf, `std::hash` and the token check.
pub record World (DB FS : Type 0) : Type 0 where
  pub engine : Engine DB
  pub files : Files FS
  pub hard_state_codec : Codec HardState
  pub entry_codec : Codec LogEntry
  pub command_codec : Codec EntryCommand
  pub snapshot_codec : Codec Snapshot
  pub hash : ℕ → ℕ
  pub verify_token : Str → Bool

-- `RaftNode::Role`
pub data Role : Type 0 where
  leader follower candidate : Role

pub record Node (DB FS : Type 0) : Type 0 where
  pub db : DB
  pub fs : FS
  -- of the transport
  pub member_id : ℕ
  pub peers : List ℕ
  pub last_reset_time : ℕ
  pub snapshotter : Snapshotter
  pub snapshot_data : Str
  pub state_machine : StateMachine
  pub logs : RaftLog
  pub hard_state : HardState
  pub votes : ℕ
  pub role : Role
  pub commit_index : ℕ
  pub last_applied : ℕ
  pub leader_id : Option ℕ
  pub next_index : Map ℕ ℕ
  pub match_index : Map ℕ ℕ

-- `Transport::cluster_size`
abbrev pub cluster_size : {DB FS : Type 0} → Node DB FS → ℕ
cluster_size n = length n.peers

abbrev pub is_leader : Role → Bool
is_leader Role.leader = true
is_leader _ = false

abbrev pub is_candidate : Role → Bool
is_candidate Role.candidate = true
is_candidate _ = false
