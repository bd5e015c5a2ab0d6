-- ===== src/Node/Replication.antt =====
-- The replication of the log: `handle_append_entries_request` and `handle_append_entries_response`.
use vosfs.Common.{
  ℕ, ◌/◌, ◌∷◌, [], List, Bool, true, false, Option, none, some, ◌&&◌, ◌||◌, ◌==◌, ltb, leb, not,
  if◌then◌else◌, add64, min, ◌>>=◌, length, get_elem?, ℕ_discrete,
}
use vosfs.Common.Map.{Map, put, values}
use vosfs.Api.{LogEntry, AppendEntriesRequest, AppendEntriesResponse}
use vosfs.Persister.Defs.{save_entries, truncate_entries}
use vosfs.StateMachine.Apply.{Resumed}
use vosfs.RaftLog.Defs.{RaftLog, last_log_index, get_term, append_entries, truncate_entries_before}
use vosfs.Node.Defs.{World, Node, is_leader}
use vosfs.Node.Terms.{increase_term_to}
use vosfs.Node.Applying.{apply_committed}

-- `log_ok`: the entry before the new ones is in the log. The term is read only in range.
unfoldable pub log_ok : RaftLog → ℕ → ℕ → Option Bool
unfolding get_term
log_ok l prev_log_index prev_log_term =
    if leb prev_log_index (last_log_index l) && leb l.last_included_index prev_log_index
    then (get_term l prev_log_index >>= λ term. some (prev_log_term == term))
    else some false

-- `make_append_entries_response`
abbrev pub respond_append : {DB FS : Type 0} → Node DB FS → Bool → Option ℕ → AppendEntriesResponse
respond_append n success conflict_index = record {
  id = n.member_id;
  term = n.hard_state.current_term;
  success = success;
  last_log_index = last_log_index n.logs;
  conflict_index = conflict_index;
}

-- `std::ranges::sort` on numbers
unfoldable pub insert : ℕ → List ℕ → List ℕ
insert x [] = x ∷ []
insert x (y ∷ ys) = let rest = insert x ys in if leb x y then x ∷ y ∷ ys else y ∷ rest

unfoldable pub sort : List ℕ → List ℕ
unfolding insert
sort [] = []
sort (x ∷ xs) = insert x (sort xs)

-- `idxs[idxs.size() / 2]` of the sorted match indices
unfoldable pub median : Map ℕ ℕ → Option ℕ
unfolding sort
median match_index = let idxs = sort (values match_index) in get_elem? idxs (length idxs / 2)

module _ {DB FS : Type 0} (w : World DB FS) where
  -- The loop that deletes the entries which conflict with the new ones.
  unfoldable pub delete_conflicts : List LogEntry → Node DB FS → Option (Node DB FS)
  unfolding get_term truncate_entries truncate_entries_before
  delete_conflicts [] n = some n
  delete_conflicts (entry ∷ entries) n =
      let rest = delete_conflicts entries n in
      if ltb (last_log_index n.logs) entry.index
      then some n
      else (get_term n.logs entry.index >>= λ term.
          (if term == entry.term then rest else (do
            db ← truncate_entries w.engine w.entry_codec n.db entry.index (last_log_index n.logs)
            logs ← truncate_entries_before n.logs entry.index
            some (record n { db = db; logs = logs }))))

  -- The entries of a request that passed the test.
  unfoldable pub store_entries : List LogEntry → Node DB FS → Option (Node DB FS)
  unfolding delete_conflicts save_entries append_entries
  store_entries [] n = some n
  store_entries (entry ∷ entries) n = do
    kept ← delete_conflicts (entry ∷ entries) n
    db ← save_entries w.engine w.entry_codec kept.db (entry ∷ entries)
    some (record kept { db = db; logs = append_entries kept.logs (entry ∷ entries) })

  -- `leader_commit > commit_index_` and what follows
  unfoldable pub follow_commit : ℕ → ℕ → Node DB FS → Option (Node DB FS × List Resumed)
  unfolding apply_committed
  follow_commit now leader_commit n =
      if ltb n.commit_index leader_commit
      then apply_committed w now
          (record n { commit_index = min (last_log_index n.logs) leader_commit })
      else some (n, [])

  -- `handle_append_entries_request` from the point where the terms are the same.
  unfoldable pub accept_entries :
      ℕ
      → AppendEntriesRequest
      → Node DB FS
      → Option (Node DB FS × AppendEntriesResponse × List Resumed)
  unfolding log_ok store_entries follow_commit
  accept_entries now request given = do
    let n = record given { leader_id = some request.leader_id; last_reset_time = now }
    matches ← log_ok n.logs request.prev_log_index request.prev_log_term
    (if not matches then some (n, respond_append n false (some request.prev_log_index), []) else (do
      stored ← store_entries request.entries n
      (followed, resumed) ← follow_commit now request.leader_commit stored
      some (followed, respond_append followed true none, resumed)))

  -- `RaftNode::handle_append_entries_request`
  unfoldable pub handle_append_entries_request :
      ℕ
      → AppendEntriesRequest
      → Node DB FS
      → Option (Node DB FS × AppendEntriesResponse × List Resumed)
  unfolding accept_entries increase_term_to
  handle_append_entries_request now request n =
      if ltb request.term n.hard_state.current_term
      then some (n, respond_append n false none, [])
      else if ltb n.hard_state.current_term request.term
      then (do raised ← increase_term_to w now request.term n; accept_entries now request raised)
      else accept_entries now request n

  -- A successful response: the two indices of the peer, and the commit index of the leader.
  unfoldable pub advance_commit :
      ℕ → AppendEntriesResponse → Node DB FS → Option (Node DB FS × List Resumed)
  unfolding put median apply_committed
  advance_commit now response given = do
    let n = record given {
      match_index = put ℕ_discrete response.id response.last_log_index given.match_index;
      next_index = put ℕ_discrete response.id (add64 response.last_log_index 1) given.next_index;
    }
    index ← median n.match_index
    (if ltb n.commit_index index
        then apply_committed w now (record n { commit_index = index })
        else some (n, []))

  -- `RaftNode::handle_append_entries_response`
  unfoldable pub handle_append_entries_response :
      ℕ → AppendEntriesResponse → Node DB FS → Option (Node DB FS × List Resumed)
  unfolding put advance_commit increase_term_to
  handle_append_entries_response now response n =
      if ltb response.term n.hard_state.current_term || not (is_leader n.role)
      then some (n, [])
      else if ltb n.hard_state.current_term response.term
      then (increase_term_to w now response.term n >>= λ raised. some (raised, []))
      else if not response.success
      then some (
        elim response.conflict_index [
          | none ↦ n
          | some index ↦ record n { next_index = put ℕ_discrete response.id index n.next_index }
        ],
        [],
      )
      else advance_commit now response n
