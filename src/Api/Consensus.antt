-- ===== src/Api/Consensus.antt =====
-- api/raftpb/raft.proto: the messages of the `raft` service and the persistent state.
use vosfs.Common.{ℕ, List, Bool, Option, Str}

pub record HardState : Type 0 where
  pub current_term : ℕ
  pub voted_for : Option ℕ

pub record LogEntry : Type 0 where
  pub term : ℕ
  pub index : ℕ
  pub command : Str

pub record RequestVoteRequest : Type 0 where
  pub term : ℕ
  pub candidate_id : ℕ
  pub last_log_index : ℕ
  pub last_log_term : ℕ

pub record RequestVoteResponse : Type 0 where
  pub id : ℕ
  pub term : ℕ
  pub vote_granted : Bool

pub record AppendEntriesRequest : Type 0 where
  pub term : ℕ
  pub leader_id : ℕ
  pub prev_log_index : ℕ
  pub prev_log_term : ℕ
  pub entries : List LogEntry
  pub leader_commit : ℕ

pub record AppendEntriesResponse : Type 0 where
  pub id : ℕ
  pub term : ℕ
  pub success : Bool
  pub last_log_index : ℕ
  pub conflict_index : Option ℕ

pub record InstallSnapshotRequest : Type 0 where
  pub term : ℕ
  pub leader_id : ℕ
  pub last_included_index : ℕ
  pub last_included_term : ℕ
  pub offset : ℕ
  pub payload : Str
  pub done : Bool

pub record InstallSnapshotResponse : Type 0 where
  pub id : ℕ
  pub term : ℕ
