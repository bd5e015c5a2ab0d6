-- ===== src/StateMachine/Defs.antt =====
-- The state of `StateMachine`, its constructor and its snapshots.
use vosfs.Common.{
  ℕ, ◌++◌, true, Option, none, some, List, [], ◌∷◌, Str, max, add64, str_discrete, ℕ_discrete,
}
use vosfs.Common.Map.{Map, find, emplace, values}
use vosfs.Api.{Inode, DirEntry, Snapshot, PendingResponse, default_inode, default_dir_entry}

-- `NodeInfo` of include/vosfs/raft/config.hpp
pub record NodeInfo : Type 0 where
  pub id : ℕ
  pub name : Str
  pub host : Str
  pub port : ℕ

-- A coroutine handle is the number of the suspended request, and `none` if it is null.
pub record PendingRequest : Type 0 where
  pub handle : Option ℕ
  pub response : PendingResponse

pub record StateMachine : Type 0 where
  pub inodes : Map ℕ Inode
  pub dir_entries : Map Str DirEntry
  pub data_nodes : List NodeInfo
  pub next_ino : ℕ
  pub pending_requests : Map ℕ PendingRequest

-- `Status::Code` of include/vosfs/common/status.hpp
abbrev pub status_ok : ℕ
status_ok = 0

abbrev pub status_failed : ℕ
status_failed = 1

abbrev pub status_invalid_argument : ℕ
status_invalid_argument = 2

abbrev pub status_internal : ℕ
status_internal = 3

abbrev pub status_permission_denied : ℕ
status_permission_denied = 4

abbrev pub status_not_leader : ℕ
status_not_leader = 5

-- The byte `/`, and the path "/".
abbrev pub slash : ℕ
slash = b'/'

abbrev pub root_path : Str
root_path = slash ∷ []

abbrev pub root_inode : Inode
root_inode = record default_inode { ino = 0; is_dir = true; size = 4096; nlink = 2 }

abbrev pub root_entry : DirEntry
root_entry = record default_dir_entry { ino = 0; name = root_path; is_dir = true; path = root_path }

-- `max_ino` over the inodes, from 0
unfoldable pub max_ino : List Inode → ℕ
max_ino [] = 0
max_ino (i ∷ is) = max i.ino (max_ino is)

-- `StateMachine::StateMachine`
unfoldable pub create : List NodeInfo → StateMachine
unfolding emplace max_ino find
create nodes =
    let inodes = emplace ℕ_discrete root_inode.ino root_inode [] in
    record {
      inodes = inodes;
      dir_entries = emplace str_discrete root_entry.path root_entry [];
      data_nodes = nodes;
      next_ino = add64 (max_ino (values inodes)) 1;
      pending_requests = [];
    }

-- The loops of `load_snapshot` that fill the two maps.
unfoldable pub add_inodes : List Inode → Map ℕ Inode → Map ℕ Inode
add_inodes [] m = m
add_inodes (i ∷ is) m = add_inodes is (emplace ℕ_discrete i.ino i m)

unfoldable pub add_dir_entries : List DirEntry → Map Str DirEntry → Map Str DirEntry
add_dir_entries [] m = m
add_dir_entries (e ∷ es) m = add_dir_entries es (emplace str_discrete e.path e m)

-- The root that `load_snapshot` puts into a tree which is empty.
abbrev pub with_root : Map ℕ Inode → Map Str DirEntry → Map ℕ Inode × Map Str DirEntry
with_root [] [] = (
  emplace ℕ_discrete root_inode.ino root_inode [],
  emplace str_discrete root_entry.path root_entry [],
)
with_root is es = (is, es)

-- `StateMachine::load_snapshot`
unfoldable pub load_snapshot : StateMachine → Snapshot → StateMachine
unfolding add_inodes add_dir_entries max_ino
load_snapshot s snapshot =
    let (inodes, dir_entries) =
      with_root (add_inodes snapshot.inodes []) (add_dir_entries snapshot.dir_entries []) in
    record s {
      inodes = inodes;
      dir_entries = dir_entries;
      next_ino = add64 (max_ino (values inodes)) 1;
    }

-- `StateMachine::take_snapshot`
unfoldable pub take_snapshot : StateMachine → Snapshot → Snapshot
take_snapshot s snapshot = record snapshot {
  inodes = snapshot.inodes ++ values s.inodes;
  dir_entries = snapshot.dir_entries ++ values s.dir_entries;
}

-- `StateMachine::append_request`: the new state, and the entry that the caller gets.
unfoldable pub append_request : StateMachine → ℕ → PendingRequest → StateMachine × PendingRequest
unfolding emplace find
append_request s log_index request =
    let pending = emplace ℕ_discrete log_index request s.pending_requests in
    (
      record s { pending_requests = pending },
      elim (find ℕ_discrete log_index pending) [ none ↦ request | some r ↦ r ],
    )
