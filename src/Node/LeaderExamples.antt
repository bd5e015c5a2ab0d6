-- ===== src/Node/LeaderExamples.antt =====
-- The theorems on leaders and on restarts at concrete nodes.
use vosfs.Common.{
  ℕ, ◌+◌, ◌-◌, ◌/◌, ◌<◌, ◌≤◌, ◌≡◌, refl, ◌∷◌, ◌++◌, [], List, true, Option, none, some, Str, arith,
  length, add64, ℕ_discrete, str_discrete,
}
use vosfs.Common.Map.{values}
use vosfs.Common.Result.{ok}
use vosfs.Api.{
  AppendEntriesRequest, HardState, EntryCommand, PendingResponse, default_snapshot,
  RequestVoteRequest, RequestVoteResponse, AppendEntriesResponse,
}
use vosfs.Persister.Engine.{GetResult, WriteOp, after}
use vosfs.Persister.Defs.{
  hard_state_key, put_ops, save_entries, load_entries, load_hard_state, default_hard_state,
}
use vosfs.Persister.Samples.{
  memory, memory-laws, entry_codec, entry_codec-law, state_codec, nothing,
}
use vosfs.StateMachine.Defs.{StateMachine}
use vosfs.StateMachine.Apply.{apply_entry, Resumed}
use vosfs.RaftLog.Defs.{RaftLog, last_log_index, append_entries, append_entry}
use vosfs.RaftLog.Indices.{IsIndexed}
use vosfs.Snapshotter.Defs.{Files, Snapshotter, reset_offsets}
use vosfs.Node.Defs.{Node, leader, candidate, cluster_size}
use vosfs.Node.Terms.{put_all, become_leader}
use vosfs.Node.Votes.{grant_vote, handle_request_vote_request, handle_request_vote_response}
use vosfs.Node.Replication.{
  store_entries, delete_conflicts, accept_entries, handle_append_entries_request,
  handle_append_entries_response, advance_commit, respond_append,
}
use vosfs.Node.Applying.{apply_to_state_machine, save_every_tenth}
use vosfs.Node.Clients.{append_command}
use vosfs.Node.Start.{Settings, create, restore, make_node, Restored}
use vosfs.Node.Elections.{
  handle_request_vote_response-elected, become_leader-handle_request_vote_request,
  handle_request_vote_request-load_hard_state,
}
use vosfs.Node.Commits.{at_least, handle_append_entries_response-majority}
use vosfs.Node.Repeats.{store_entries-repeated, append_command-load_entries}
use vosfs.Node.Restarts.{Reach, Step, create-handle_append_entries_request}
use vosfs.Node.Examples.{
  world, no_tree, node, entry_1, entry_2, both, stored_db, stored_node, ask_2, voted_node, yes_1,
  node-IsPersisted,
}

-- A candidate of term 3 with one vote of three, the response that makes it leader, and the leader.
abbrev state_3 : HardState
state_3 = record { current_term = 3; voted_for = some 1 }

abbrev candidate_node : Node (Str → GetResult) Str
candidate_node = record node { hard_state = state_3; votes = 1; role = candidate }

abbrev second_vote : RequestVoteResponse
second_vote = record { id = 2; term = 3; vote_granted = true }

abbrev forgotten : HardState
forgotten = record { current_term = 3; voted_for = none }

abbrev leader_of : Node (Str → GetResult) Str → Node (Str → GetResult) Str
leader_of n = record n {
  db = λ k. after (WriteOp.put hard_state_key (state_codec.serialize forgotten) ∷ []) k (n.db k);
  votes = 0;
  hard_state = forgotten;
  role = leader;
  leader_id = some 1;
  next_index = put_all (1 ∷ 2 ∷ 3 ∷ []) 1 [];
  match_index = put_all (1 ∷ 2 ∷ 3 ∷ []) 0 [];
}

becomes : become_leader world candidate_node ≡ some (leader_of candidate_node)
unfolding become_leader vosfs.Node.Terms.persist
becomes = refl

elected :
    handle_request_vote_response world 7 second_vote candidate_node
    ≡ some (leader_of candidate_node)
unfolding handle_request_vote_response vosfs.Node.Terms.persist
elected = refl

handle_request_vote_response-elected_example :
    (candidate_node.role ≡ candidate)
    × (second_vote.term ≡ candidate_node.hard_state.current_term)
    × (second_vote.vote_granted ≡ true)
    × (cluster_size candidate_node / 2 < add64 candidate_node.votes 1)
handle_request_vote_response-elected_example =
    handle_request_vote_response-elected world 7 second_vote candidate_node
      (leader_of candidate_node) elected refl refl

-- The candidate 2 asks in term 3.
abbrev ask_in_3 : RequestVoteRequest
ask_in_3 = record { term = 3; candidate_id = 2; last_log_index = 4; last_log_term = 1 }

become_leader-handle_request_vote_request_example :
    (k : Node (Str → GetResult) Str) × (r : RequestVoteResponse) × (handle_request_vote_request
        world 7 ask_in_3
        (leader_of candidate_node)
      ≡ some (k, r))
    × (r.vote_granted ≡ true)
    × (k.role ≡ leader)
    × (k.hard_state.current_term ≡ candidate_node.hard_state.current_term)
become_leader-handle_request_vote_request_example =
    become_leader-handle_request_vote_request world 7 ask_in_3 candidate_node
      (leader_of candidate_node) becomes refl (omega arith)

-- A follower whose database holds its state.
abbrev default_db : Str → GetResult
default_db k =
    after (WriteOp.put hard_state_key (state_codec.serialize default_hard_state) ∷ []) k (nothing k)

abbrev default_node : Node (Str → GetResult) Str
default_node = record node { db = default_db }

abbrev default_voted : Node (Str → GetResult) Str
default_voted = record voted_node { db = default_db }

holds_default : load_hard_state memory state_codec default_db ≡ (ok default_hard_state, default_db)
unfolding load_hard_state str_discrete
holds_default = refl

vote_default : handle_request_vote_request world 7 ask_2 default_node ≡ some (default_voted, yes_1)
unfolding handle_request_vote_request grant_vote
vote_default = refl

handle_request_vote_request-load_hard_state_example :
    (default_voted.hard_state.voted_for ≡ some ask_2.candidate_id)
    × (load_hard_state memory state_codec default_db ≡ (ok default_hard_state, default_db))
handle_request_vote_request-load_hard_state_example =
    handle_request_vote_request-load_hard_state world 7 ask_2 default_node default_voted yes_1
      holds_default refl refl vote_default refl

stored_node-IsIndexed : IsIndexed stored_node.logs
unfolding append_entries append_entry
stored_node-IsIndexed = record { consecutive = (refl, (refl, tt)); fits = omega arith }

stored_entries : stored_node.logs.entries ≡ [] ++ both
unfolding append_entries append_entry
stored_entries = refl

abbrev twice_node : Node (Str → GetResult) Str
twice_node = record stored_node {
  db = λ k. after (put_ops entry_codec both) k (stored_db k);
  logs = append_entries stored_node.logs both;
}

store_again : store_entries world both stored_node ≡ some twice_node
unfolding store_entries delete_conflicts save_entries append_entries append_entry
store_again = refl

store_entries-repeated_example :
    (twice_node.logs.entries ≡ stored_node.logs.entries ++ both) × ¬ IsIndexed twice_node.logs
store_entries-repeated_example =
    store_entries-repeated world [] (entry_2 ∷ []) entry_1 stored_node twice_node
      stored_node-IsIndexed stored_entries store_again

append_command-load_entries_example :
    let m =
      (append_command world EntryCommand.type_not_set 42 PendingResponse.type_not_set node).0 in
    (load_entries memory entry_codec 1 m.db m.logs.last_included_index ≡ some (ok []))
    × (length m.logs.entries ≡ 0 + 1)
append_command-load_entries_example =
    append_command-load_entries world memory-laws entry_codec-law EntryCommand.type_not_set 42 1
      PendingResponse.type_not_set node node-IsPersisted (omega arith) (omega arith)

-- A leader with two entries, of which the member 3 has the first, and a response of the member 2.
abbrev leading : Node (Str → GetResult) Str
leading = record stored_node { role = leader; match_index = (1, 0) ∷ (2, 0) ∷ (3, 1) ∷ [] }

abbrev reached_1 : AppendEntriesResponse
reached_1 = record { id = 2; term = 0; success = true; last_log_index = 1; conflict_index = none }

abbrev applied_tree : StateMachine
applied_tree = (apply_entry world.command_codec.parse no_tree entry_1 7).0

abbrev applied_replies : List Resumed
applied_replies = (apply_entry world.command_codec.parse no_tree entry_1 7).1 ++ []

abbrev committed : Node (Str → GetResult) Str
committed = record leading {
  match_index = (1, 0) ∷ (2, 1) ∷ (3, 1) ∷ [];
  next_index = (2, 2) ∷ [];
  commit_index = 1;
  last_applied = 1;
  state_machine = applied_tree;
}

commits :
    handle_append_entries_response world 7 reached_1 leading ≡ some (committed, applied_replies)
unfolding handle_append_entries_response advance_commit ℕ_discrete vosfs.RaftLog.Defs.get_entry
    append_entries save_every_tenth apply_to_state_machine
commits = refl

handle_append_entries_response-majority_example :
    length (values committed.match_index) - length (values committed.match_index) / 2
    ≤ at_least committed.commit_index (values committed.match_index)
handle_append_entries_response-majority_example =
    handle_append_entries_response-majority world 7 reached_1 leading committed applied_replies
      commits (omega arith)

abbrev settings : Settings
settings = record {
  member_id = 1;
  raft_nodes = 1 ∷ 2 ∷ 3 ∷ [];
  data_nodes = [];
  snapshot_path = [];
  tmp_path = [];
}

abbrev statx_example : Str → Str → Option ℕ
statx_example fs p = some 100

abbrev restored : Restored
restored = record {
  snapshotter = vosfs.Snapshotter.Defs.create [] [];
  state_machine =
      vosfs.StateMachine.Defs.load_snapshot (vosfs.StateMachine.Defs.create [])
        (record default_snapshot { last_included_index = 10; last_included_term = 2 });
  last_included_index = 10;
  last_included_term = 2;
}

abbrev restarted : Node (Str → GetResult) Str
restarted = make_node world statx_example settings default_db [] restored [] default_hard_state

starts : create world statx_example 1 settings (ok nothing) [] ≡ some (ok restarted)
unfolding create restore
starts = refl

-- Two heartbeats of the leader 2, which names the last entry of the snapshot: the first tells of no
-- commit, the second of a commit up to there.
abbrev quiet : AppendEntriesRequest
quiet = record {
  term = 0;
  leader_id = 2;
  prev_log_index = 10;
  prev_log_term = 2;
  entries = [];
  leader_commit = 0;
}

abbrev telling : AppendEntriesRequest
telling = record quiet { leader_commit = 10 }

abbrev led : Node (Str → GetResult) Str
led = record restarted { leader_id = some 2; last_reset_time = 7 }

hears :
    handle_append_entries_request world 7 quiet restarted
    ≡ some (led, respond_append led true none, [])
unfolding handle_append_entries_request accept_entries
hears = refl

create-handle_append_entries_request_example :
    (led.commit_index ≡ 0)
    × (led.last_applied ≡ 0)
    × (handle_append_entries_request world 8 telling led ≡ none)
unfolding vosfs.Node.Replication.log_ok
create-handle_append_entries_request_example =
    create-handle_append_entries_request world statx_example 1 settings (ok nothing) [] restarted
      led 8 telling starts (omega arith)
      (Reach.next Reach.here (Step.append_request 7 quiet (respond_append led true none) [] hears))
      refl refl refl (omega arith)
