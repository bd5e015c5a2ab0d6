-- ===== src/Node/Start.antt =====
-- `RaftNode::create`: the start of a node from its files and its database.
use vosfs.Common.{
  ℕ, ◌-◌, ◌%◌, ◌^◌, ◌&&◌, ltb, [], List, Option, none, some, Str, ◌==◌, if◌then◌else◌, ◌>>=◌,
}
use vosfs.Common.Result.{Result, ok, err, file_error}
use vosfs.Api.{HardState, LogEntry}
use vosfs.StateMachine.Defs
use vosfs.StateMachine.Defs.{NodeInfo, StateMachine}
use vosfs.Persister.Defs.{load_entries, load_hard_state}
use vosfs.Snapshotter.Defs.{Snapshotter, load_snapshot}
use vosfs.Node.Defs.{World, Node, follower}

-- What `create` reads of the configuration.
pub record Settings : Type 0 where
  pub member_id : ℕ
  pub raft_nodes : List ℕ
  pub data_nodes : List NodeInfo
  -- `SNAPSHOT_FILE_NAME` and `SNAPSHOT_TEMP_FILE_NAME` in the directory of snapshots
  pub snapshot_path : Str
  pub tmp_path : Str

-- The snapshot that the start loads, if the file is not empty.
pub record Restored : Type 0 where
  pub snapshotter : Snapshotter
  pub state_machine : StateMachine
  pub last_included_index : ℕ
  pub last_included_term : ℕ

-- The arguments of the constructor of `Snapshotter` are named `tmp_path` and `snapshot_path`.
abbrev pub fresh : Settings → Restored
fresh c = record {
  snapshotter = vosfs.Snapshotter.Defs.create c.snapshot_path c.tmp_path;
  state_machine = vosfs.StateMachine.Defs.create c.data_nodes;
  last_included_index = 0;
  last_included_term = 0;
}

-- `util::get_file_size`, whose result is an `int`: a size above 2 ^ 31 is negative, and -1 is an error.
pub data FileSize : Type 0 where
  size_error size_empty size_some : FileSize

abbrev pub to_file_size : Option ℕ → FileSize
to_file_size none = FileSize.size_error
to_file_size (some size) =
    let low = size % 2 ^ 32 in
    if low == 2 ^ 32 - 1
    then FileSize.size_error
    else if ltb 0 low && ltb low (2 ^ 31)
    then FileSize.size_some
    else FileSize.size_empty

-- `database` is the outcome of `Persister::create`, `statx` the size of a file or 0 if there is none.
module _ {DB FS : Type 0} (w : World DB FS) (statx : FS → Str → Option ℕ) where
  unfoldable pub restore : Settings → FS → Result Restored
  unfolding load_snapshot Defs.load_snapshot Defs.create
  restore c fs = elim (to_file_size (statx fs c.snapshot_path)) [
    | size_error ↦ err file_error
    | size_empty ↦ ok (fresh c)
    | size_some ↦
        (let (snapshotter, loaded) =
            load_snapshot w.files w.snapshot_codec (fresh c).snapshotter fs in
          elim loaded [
            | err e ↦ err e
            | ok snapshot ↦ ok (record {
              snapshotter = snapshotter;
              state_machine = Defs.load_snapshot (fresh c).state_machine snapshot;
              last_included_index = snapshot.last_included_index;
              last_included_term = snapshot.last_included_term;
            })
          ])
  ]

  -- The node that the constructor makes, with its members' initialisers.
  abbrev pub make_node : Settings → DB → FS → Restored → List LogEntry → HardState → Node DB FS
  make_node c db fs r entries hard_state = record {
    db = db;
    fs = fs;
    member_id = c.member_id;
    peers = c.raft_nodes;
    last_reset_time = 0;
    snapshotter = r.snapshotter;
    snapshot_data = [];
    state_machine = r.state_machine;
    logs = record {
      last_included_index = r.last_included_index;
      last_included_term = r.last_included_term;
      entries = entries;
    };
    hard_state = hard_state;
    votes = 0;
    role = follower;
    commit_index = 0;
    last_applied = 0;
    leader_id = none;
    next_index = [];
    match_index = [];
  }

  -- `RaftNode::create`. The fuel is that of `load_entries`.
  unfoldable pub create : ℕ → Settings → Result DB → FS → Option (Result (Node DB FS))
  unfolding restore load_entries load_hard_state
  create fuel c database fs = elim (restore c fs) [
    | err e ↦ some (err e)
    | ok r ↦ elim database [
      | err e ↦ some (err e)
      | ok db ↦
          (load_entries w.engine w.entry_codec fuel db r.last_included_index >>= λ loaded.
          elim loaded [
            | err e ↦ some (err e)
            | ok entries ↦
                (let (has_hard_state, written) = load_hard_state w.engine w.hard_state_codec db in
                  elim has_hard_state [
                    | err e ↦ some (err e)
                    | ok hard_state ↦ some (ok (make_node c written fs r entries hard_state))
                  ])
          ])
    ]
  ]
