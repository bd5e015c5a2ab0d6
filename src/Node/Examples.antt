-- ===== src/Node/Examples.antt =====
-- The theorems on the node at concrete nodes.
use vosfs.Common.{
  ◌≡◌, refl, ◌∷◌, ◌++◌, [], List, true, false, none, some, Str, arith, inl, take, drop,
}
use vosfs.Api.{LogEntry, EntryCommand, default_snapshot, RequestVoteRequest, RequestVoteResponse}
use vosfs.Persister.Engine.{GetResult, after}
use vosfs.Persister.Defs.{put_ops, save_entries, default_hard_state}
use vosfs.Persister.Samples.{
  memory, memory-laws, entry_codec, entry_codec-law, state_codec, nothing,
}
use vosfs.StateMachine.Defs.{StateMachine}
use vosfs.RaftLog.Defs.{RaftLog, append_entries}
use vosfs.Snapshotter.Defs.{Files}
use vosfs.Node.Defs.{World, Node, follower}
use vosfs.Node.Votes.{grant_vote, handle_request_vote_request}
use vosfs.Node.Replication.{store_entries, delete_conflicts}
use vosfs.Node.Appends.{IsPersisted, store_entries-IsPersisted}

-- A file system of one file, and a command that makes the directory "/a".
abbrev pub one_file : Files Str
one_file = record {
  create = λ fs p. ([], true);
  open_file = λ fs p. true;
  write_all = λ fs p d. (fs ++ d, true);
  rename = λ fs p q. (fs, true);
  seek = λ fs p i. true;
  read_exact = λ fs p i n. some (take n (drop i fs));
  read_file = λ fs p. some fs;
}

abbrev make_a : EntryCommand
make_a =
    EntryCommand.mkdir
      (record { token = []; parent_path = b'/' ∷ []; name = b'a' ∷ []; timestamp = 5 })

abbrev pub world : World (Str → GetResult) Str
world = record {
  engine = memory;
  files = one_file;
  hard_state_codec = state_codec;
  entry_codec = entry_codec;
  command_codec = record { serialize = λ c. 1 ∷ []; parse = λ s. some make_a };
  snapshot_codec = record {
    serialize = λ s. [];
    parse =
        λ s. some (record default_snapshot { last_included_index = 10; last_included_term = 2 });
  };
  hash = λ k. k;
  verify_token = λ t. true;
}

abbrev pub no_log : RaftLog
no_log = record { last_included_index = 0; last_included_term = 0; entries = [] }

abbrev pub no_tree : StateMachine
no_tree = record {
  inodes = [];
  dir_entries = [];
  data_nodes = [];
  next_ino = 1;
  pending_requests = [];
}

-- A follower of a cluster of three in term 0.
abbrev pub node : Node (Str → GetResult) Str
node = record {
  db = nothing;
  fs = [];
  member_id = 1;
  peers = 1 ∷ 2 ∷ 3 ∷ [];
  last_reset_time = 0;
  snapshotter = record {
    locked = false;
    offsets = [];
    snapshot_size = 0;
    tmp_path = [];
    snapshot_path = [];
  };
  snapshot_data = [];
  state_machine = no_tree;
  logs = no_log;
  hard_state = default_hard_state;
  votes = 0;
  role = follower;
  commit_index = 0;
  last_applied = 0;
  leader_id = none;
  next_index = [];
  match_index = [];
}

abbrev pub entry_1 : LogEntry
entry_1 = record { term = 1; index = 1; command = [] }

abbrev pub entry_2 : LogEntry
entry_2 = record { term = 1; index = 2; command = [] }

abbrev pub both : List LogEntry
both = entry_1 ∷ entry_2 ∷ []

abbrev pub stored_db : Str → GetResult
stored_db k = after (put_ops entry_codec both) k (nothing k)

abbrev pub stored_node : Node (Str → GetResult) Str
stored_node = record node { db = stored_db; logs = append_entries no_log both }

pub node-IsPersisted : IsPersisted world node
node-IsPersisted = record {
  indexed = record { consecutive = tt; fits = omega arith };
  stored = record { held = λ i e h. ground (arith, h); clear = λ j h. refl };
}

store_both : store_entries world both node ≡ some stored_node
unfolding store_entries delete_conflicts save_entries append_entries
store_both = refl

store_entries-IsPersisted_example :
    (stored_node.logs.entries ≡ [] ++ both) × IsPersisted world stored_node
store_entries-IsPersisted_example =
    store_entries-IsPersisted world memory-laws entry_codec-law entry_1 (entry_2 ∷ []) node
      stored_node node-IsPersisted (omega arith) (inl refl) (refl, (refl, tt)) (omega arith)
      (omega arith) store_both

-- The candidate 2 asks for the vote of term 0, and then again.
abbrev pub ask_2 : RequestVoteRequest
ask_2 = record { term = 0; candidate_id = 2; last_log_index = 4; last_log_term = 1 }

abbrev pub ask_2_later : RequestVoteRequest
ask_2_later = record ask_2 { last_log_index = 9 }

abbrev pub voted_node : Node (Str → GetResult) Str
voted_node = record node {
  hard_state = record { current_term = 0; voted_for = some 2 };
  last_reset_time = 7;
}

abbrev pub yes_1 : RequestVoteResponse
yes_1 = record { id = 1; term = 0; vote_granted = true }

pub vote_2 : handle_request_vote_request world 7 ask_2 node ≡ some (voted_node, yes_1)
unfolding handle_request_vote_request grant_vote
vote_2 = refl

pub vote_2_again :
    handle_request_vote_request world 7 ask_2_later voted_node ≡ some (voted_node, yes_1)
unfolding handle_request_vote_request grant_vote
vote_2_again = refl
