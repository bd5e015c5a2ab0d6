-- ===== src/Node/SendingExamples.antt =====
-- The theorems on heartbeats, on the answers to them, and on votes at concrete nodes.
use vosfs.Common.{
  ℕ, ◌+◌, ◌-◌, ◌≤◌, ◌<◌, ◌^◌, ◌∷◌, [], true, Option, none, some, Str, ◌≡◌, refl, arith, length, min,
  ℕ_discrete, All,
}
use vosfs.Common.Map.{find, access}
use vosfs.Api.{
  AppendEntriesRequest, AppendEntriesResponse, InstallSnapshotRequest, InstallSnapshotResponse,
}
use vosfs.Persister.Engine.{GetResult}
use vosfs.RaftLog.Defs.{last_log_index, get_term, append_entries, append_entry}
use vosfs.RaftLog.Indices.{Consecutive, IsIndexed}
use vosfs.Snapshotter.Defs.{offset_at}
use vosfs.Node.Defs.{Node, leader}
use vosfs.Node.Heartbeats.{
  Round, heartbeat_round, heartbeat_to, append_request_to, max_append_entries_size,
}
use vosfs.Node.Installing.{send_snapshot, handle_install_snapshot_response}
use vosfs.Node.Replication.{handle_append_entries_request, accept_entries, respond_append}
use vosfs.Node.Sending.{sent_from, append_request_to-entries}
use vosfs.Node.Following.{handle_append_entries_request-success}
use vosfs.Node.Grants.{Run, Run-once}
use vosfs.Node.Unsent.{IsMeant, heartbeat_round-installs}
use vosfs.Node.Examples.{
  ask_2, ask_2_later, voted_node, yes_1, vote_2, vote_2_again, world, node, both, stored_node,
}

stored_node-IsIndexed : IsIndexed stored_node.logs
unfolding append_entries append_entry
stored_node-IsIndexed = record { consecutive = (refl, (refl, tt)); fits = omega arith }

above_zero : stored_node.logs.last_included_index < 2
unfolding append_entries append_entry
above_zero = omega arith

is_behind : 2 ≤ last_log_index stored_node.logs + 1
unfolding append_entries append_entry
is_behind = omega arith

is_small : last_log_index stored_node.logs + 1 < 2 ^ 64
unfolding append_entries append_entry
is_small = omega arith

append_request_to-entries_example :
    (r : AppendEntriesRequest) × (append_request_to stored_node 2 ≡ some r)
    × (r.term ≡ stored_node.hard_state.current_term)
    × (r.leader_id ≡ stored_node.member_id)
    × (r.leader_commit ≡ stored_node.commit_index)
    × (r.prev_log_index + 1 ≡ 2)
    × (get_term stored_node.logs r.prev_log_index ≡ some r.prev_log_term)
    × (r.entries ≡ sent_from stored_node.logs 2)
    × Consecutive 2 r.entries
    × (length r.entries ≡ min max_append_entries_size (last_log_index stored_node.logs + 1 - 2))
append_request_to-entries_example =
    append_request_to-entries stored_node 2 stored_node-IsIndexed above_zero is_behind is_small

-- The leader 2 of term 0 sends its two entries.
abbrev send_both : AppendEntriesRequest
send_both = record {
  term = 0;
  leader_id = 2;
  prev_log_index = 0;
  prev_log_term = 0;
  entries = both;
  leader_commit = 0;
}

abbrev following : Node (Str → GetResult) Str
following = record stored_node { leader_id = some 2; last_reset_time = 7 }

abbrev stored_answer : AppendEntriesResponse
stored_answer = respond_append following true none

follows : handle_append_entries_request world 7 send_both node ≡ some (following, stored_answer, [])
unfolding handle_append_entries_request accept_entries
follows = refl

handle_append_entries_request-success_example :
    (node.hard_state.current_term ≤ send_both.term)
    × (following.hard_state.current_term ≡ send_both.term)
    × (get_term node.logs 0 ≡ some 0)
    × (node.logs.last_included_index ≤ 0)
    × (0 ≤ last_log_index node.logs)
handle_append_entries_request-success_example =
    handle_append_entries_request-success world 7 send_both node following stored_answer [] follows
      refl

-- A leader whose log starts behind a snapshot: the member 2 is up to date, and the member 3 needs the
-- snapshot, of which it was sent five bytes.
abbrev sender : Node (Str → GetResult) Str
sender = record node {
  role = leader;
  logs = record { last_included_index = 10; last_included_term = 2; entries = [] };
  next_index = (1, 11) ∷ (2, 11) ∷ (3, 5) ∷ [];
  snapshot_data = 1 ∷ [];
  snapshotter = record (node.snapshotter) { offsets = (3, 5) ∷ [] };
}

abbrev locked_sender : Node (Str → GetResult) Str
locked_sender = record sender {
  snapshotter = record (node.snapshotter) { locked = true; offsets = (3, 5) ∷ [] };
}

abbrev alive : AppendEntriesRequest
alive = record {
  term = 0;
  leader_id = 1;
  prev_log_index = 10;
  prev_log_term = 2;
  entries = [];
  leader_commit = 0;
}

abbrev one_round : Round
one_round = record { appends = (2, alive) ∷ []; installs = [] }

sends_round : heartbeat_round world sender ≡ some (locked_sender, one_round)
unfolding heartbeat_round heartbeat_to append_request_to send_snapshot offset_at access find
    ℕ_discrete get_term
sends_round = refl

abbrev got_it : InstallSnapshotResponse
got_it = record { id = 3; term = 0 }

abbrev no_request : Option InstallSnapshotRequest
no_request = none

answers : handle_install_snapshot_response world 7 got_it sender ≡ some (locked_sender, no_request)
unfolding handle_install_snapshot_response send_snapshot offset_at access find ℕ_discrete
answers = refl

heartbeat_round-installs_example :
    (one_round.installs ≡ [])
    × (no_request ≡ none)
    × All (IsMeant sender sender.next_index) one_round.appends
heartbeat_round-installs_example =
    heartbeat_round-installs world 7 sender locked_sender sender locked_sender one_round got_it
      no_request refl sends_round answers

-- The node grants its vote to the candidate 2 twice.
voted_twice : Run world node ((0, 2) ∷ (0, 2) ∷ []) voted_node
voted_twice =
    Run.grant 7 ask_2_later yes_1 (Run.grant 7 ask_2 yes_1 Run.start vote_2 refl) vote_2_again refl

abbrev two : ℕ
two = 2

Run-once_example : two ≡ 2
Run-once_example =
    Run-once world node voted_node ((0, 2) ∷ (0, 2) ∷ []) 0 1 0 2 2 voted_twice refl refl
