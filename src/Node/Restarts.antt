-- ===== src/Node/Restarts.antt =====
-- A node that starts from a snapshot.
use vosfs.Common.{
  ℕ, zero, suc, ◌+◌, ◌-◌, ◌≤◌, ◌<◌, ◌∷◌, [], List, true, Option, none, some, Str, ◌≡◌, sym, ap,
  subst, ◌∙◌, arith, u64_mod, add64, add64_small, min, inl, inr, ltb, not, if-ways, if-terms,
  ℕ_discrete, >>=-eq-some, some-same,
}
use vosfs.Common.Map.{put}
use vosfs.Common.Result.{Result, ok}
use vosfs.Api.{
  LogEntry, AppendEntriesRequest, AppendEntriesResponse, RequestVoteRequest, RequestVoteResponse,
}
use vosfs.StateMachine.Apply.{Resumed}
use vosfs.Persister.Defs.{save_entries}
use vosfs.RaftLog.Defs.{RaftLog, last_log_index, get_entry, truncate_entries_before}
use vosfs.RaftLog.Changes.{append_entries-eq}
use vosfs.Node.Defs.{World, Node}
use vosfs.Node.Terms.{increase_term_to, persist, become_leader}
use vosfs.Node.Votes.{
  grant_vote, count_vote, start_election, election_round, handle_request_vote_request,
  handle_request_vote_response,
}
use vosfs.Node.Replication.{
  log_ok, delete_conflicts, store_entries, follow_commit, accept_entries, advance_commit, median,
  handle_append_entries_request, handle_append_entries_response,
}
use vosfs.Node.Applying.{apply_next, apply_rounds, apply_committed}
use vosfs.Node.Start.{Settings, create}

-- The node is behind the snapshot that its log starts from: it has applied and committed nothing.
abbrev pub IsBehind : {DB FS : Type 0} → Node DB FS → Type 0
IsBehind n = (n.commit_index ≡ 0) × (n.last_applied ≡ 0) × (0 < n.logs.last_included_index)

get_entry-included :
    (l : RaftLog) (index : ℕ) → index ≤ l.last_included_index → get_entry l index ≡ none
unfolding get_entry
get_entry-included l index h = ground arith

module _ {DB FS : Type 0} (w : World DB FS) where
  apply_next-included :
      (current_ms : ℕ) (n : Node DB FS)
      → n.last_applied < n.logs.last_included_index
      → n.last_applied + 1 < u64_mod
      → apply_next w current_ms n ≡ none
  unfolding apply_next
  apply_next-included current_ms n behind fits =
      let step = add64_small n.last_applied 1 fits in
      rw (get_entry-included n.logs (add64 n.last_applied 1) (omega (arith, step, behind)))

  -- The first round aborts on entry 1, which the log does not have.
  apply_committed-none :
      (current_ms : ℕ) (n : Node DB FS)
      → n.last_applied ≡ 0
      → 0 < n.logs.last_included_index
      → 0 < n.commit_index
      → apply_committed w current_ms n ≡ none
  unfolding apply_committed apply_rounds
  apply_committed-none current_ms n unapplied included moved =
      let rounds : n.commit_index - n.last_applied ≡ suc (n.commit_index - n.last_applied - 1) =
        omega (arith, unapplied, moved) in
      rw (
        rounds,
        apply_next-included current_ms n (omega (arith, unapplied, included))
            (omega (arith, unapplied)),
      )

  apply_committed-IsBehind :
      (current_ms : ℕ) (n m : Node DB FS) (resumed : List Resumed)
      → n.last_applied ≡ 0
      → 0 < n.logs.last_included_index
      → apply_committed w current_ms n ≡ some (m, resumed)
      → IsBehind m
  unfolding apply_committed apply_rounds
  apply_committed-IsBehind current_ms n m resumed unapplied included h =
      elim (ℕ_discrete n.commit_index 0) [
        | yes start ↦
            (let rounds : n.commit_index - n.last_applied ≡ zero = omega (arith, start) in
              let stays : apply_committed w current_ms n ≡ some (n, []) =
                ap (λ k. apply_rounds w k current_ms n) rounds in
              let same : n ≡ m = ap (λ p. p.0) (some-same (sym stays ∙ h)) in
              subst IsBehind same (start, unapplied, included))
        | no moved ↦
            (let aborts =
                apply_committed-none current_ms n unapplied included (omega (arith, moved)) in
              absurd (ground (arith, aborts, h)))
      ]

  -- One step of the node, where it has a result: the handlers of votes and of entries, and the
  -- timer of elections.
  pub data Step (n m : Node DB FS) : Type 0 where
    vote_request :
        (now : ℕ) (request : RequestVoteRequest) (r : RequestVoteResponse)
        → handle_request_vote_request w now request n ≡ some (m, r)
        → Step n m
    vote_response :
        (now : ℕ) (response : RequestVoteResponse)
        → handle_request_vote_response w now response n ≡ some m
        → Step n m
    election :
        (now later election_timeout : ℕ) (request : Option RequestVoteRequest)
        → election_round w now later election_timeout n ≡ some (m, request)
        → Step n m
    append_request :
        (now : ℕ) (request : AppendEntriesRequest) (r : AppendEntriesResponse)
        (resumed : List Resumed)
        → handle_append_entries_request w now request n ≡ some (m, r, resumed)
        → Step n m
    append_response :
        (now : ℕ) (response : AppendEntriesResponse) (resumed : List Resumed)
        → handle_append_entries_response w now response n ≡ some (m, resumed)
        → Step n m

  pub data Reach (n : Node DB FS) : Node DB FS → Type 0 where
    here : Reach n n
    next : {m k : Node DB FS} → Reach n m → Step m k → Reach n k

  vote_request-IsBehind :
      (now : ℕ) (request : RequestVoteRequest) (n m : Node DB FS) (r : RequestVoteResponse)
      → IsBehind n
      → handle_request_vote_request w now request n ≡ some (m, r)
      → IsBehind m
  unfolding handle_request_vote_request grant_vote increase_term_to persist
  vote_request-IsBehind now request n m r (a, b, c) h = ground arith

  vote_response-IsBehind :
      (now : ℕ) (response : RequestVoteResponse) (n m : Node DB FS)
      → IsBehind n
      → handle_request_vote_response w now response n ≡ some m
      → IsBehind m
  unfolding handle_request_vote_response count_vote become_leader increase_term_to persist
  vote_response-IsBehind now response n m (a, b, c) h = ground arith

  election-IsBehind :
      (now later election_timeout : ℕ) (n m : Node DB FS) (request : Option RequestVoteRequest)
      → IsBehind n
      → election_round w now later election_timeout n ≡ some (m, request)
      → IsBehind m
  unfolding election_round start_election count_vote become_leader persist
  election-IsBehind now later election_timeout n m request (a, b, c) h = ground arith

  advance_commit-IsBehind :
      (now : ℕ) (response : AppendEntriesResponse) (n m : Node DB FS) (resumed : List Resumed)
      → IsBehind n
      → advance_commit w now response n ≡ some (m, resumed)
      → IsBehind m
  unfolding advance_commit put
  advance_commit-IsBehind now response n m resumed behind h =
      let (index, _, rest) =
        >>=-eq-some (median (put ℕ_discrete response.id response.last_log_index n.match_index)) _
          h in
      elim (if-ways (ltb n.commit_index index) _ _ (some (m, resumed)) rest) [
        | inl (_, applied) ↦ apply_committed-IsBehind now _ m resumed behind.1 behind.2 applied
        | inr (_, same) ↦ subst IsBehind (ap (λ p. p.0) (some-same same)) behind
      ]

  append_response-IsBehind :
      (now : ℕ) (response : AppendEntriesResponse) (n m : Node DB FS) (resumed : List Resumed)
      → IsBehind n
      → handle_append_entries_response w now response n ≡ some (m, resumed)
      → IsBehind m
  unfolding handle_append_entries_response increase_term_to persist
  append_response-IsBehind now response n m resumed (a, b, c) h =
      ground (arith, advance_commit-IsBehind now response n m resumed (a, b, c))

  delete_conflicts-included :
      (es : List LogEntry) (n m : Node DB FS)
      → IsBehind n
      → delete_conflicts w es n ≡ some m
      → IsBehind m
  unfolding delete_conflicts truncate_entries_before
  delete_conflicts-included [] n m behind h = subst IsBehind (some-same h) behind
  delete_conflicts-included (e ∷ es) n m (a, b, c) h =
      ground (arith, delete_conflicts-included es n m (a, b, c))

  store_entries-IsBehind :
      (es : List LogEntry) (n m : Node DB FS)
      → IsBehind n
      → store_entries w es n ≡ some m
      → IsBehind m
  unfolding store_entries
  store_entries-IsBehind [] n m behind h = subst IsBehind (some-same h) behind
  store_entries-IsBehind (e ∷ es) n m behind h =
      let (kept, cut, rest) = >>=-eq-some (delete_conflicts w (e ∷ es) n) _ h in
      let (db, _, end) =
        >>=-eq-some (save_entries w.engine w.entry_codec kept.db (e ∷ es)) _ rest in
      let (a, b, c) = delete_conflicts-included (e ∷ es) n kept behind cut in
      ground (arith, end, append_entries-eq kept.logs (e ∷ es), a, b, c)

  follow_commit-IsBehind :
      (now leader_commit : ℕ) (n m : Node DB FS) (resumed : List Resumed)
      → IsBehind n
      → follow_commit w now leader_commit n ≡ some (m, resumed)
      → IsBehind m
  unfolding follow_commit
  follow_commit-IsBehind now leader_commit n m resumed behind h =
      elim (if-ways (ltb n.commit_index leader_commit) _ _ (some (m, resumed)) h) [
        | inl (_, applied) ↦ apply_committed-IsBehind now _ m resumed behind.1 behind.2 applied
        | inr (_, same) ↦ subst IsBehind (ap (λ p. p.0) (some-same same)) behind
      ]

  accept_entries-IsBehind :
      (now : ℕ) (request : AppendEntriesRequest) (n m : Node DB FS) (r : AppendEntriesResponse)
      (resumed : List Resumed)
      → IsBehind n
      → accept_entries w now request n ≡ some (m, r, resumed)
      → IsBehind m
  unfolding accept_entries
  accept_entries-IsBehind now request n m r resumed behind h =
      let (matches, _, rest) =
        >>=-eq-some (log_ok n.logs request.prev_log_index request.prev_log_term) _ h in
      elim (if-ways (not matches) _ _ (some (m, r, resumed)) rest) [
        | inl (_, refused) ↦ subst IsBehind (ap (λ p. p.0) (some-same refused)) behind
        | inr (_, accepted) ↦
            (let (stored, store, following) =
                >>=-eq-some (store_entries w request.entries _) _ accepted in
              let ((followed, replies), follow, end) =
                >>=-eq-some (follow_commit w now request.leader_commit stored) _ following in
              subst IsBehind (ap (λ p. p.0) (some-same end)) (
                follow_commit-IsBehind now request.leader_commit stored followed replies
                  (store_entries-IsBehind request.entries _ stored behind store) follow))
      ]

  append_request-IsBehind :
      (now : ℕ) (request : AppendEntriesRequest) (n m : Node DB FS) (r : AppendEntriesResponse)
      (resumed : List Resumed)
      → IsBehind n
      → handle_append_entries_request w now request n ≡ some (m, r, resumed)
      → IsBehind m
  unfolding handle_append_entries_request increase_term_to persist
  append_request-IsBehind now request n m r resumed behind h =
      elim (if-terms request.term n.hard_state.current_term _ _ _ (some (m, r, resumed)) h) [
        | inl (_, refused) ↦ subst IsBehind (ap (λ p. p.0) (some-same refused)) behind
        | inr (inl (_, raise)) ↦
            (let (raised, raises, accepted) =
                >>=-eq-some (increase_term_to w now request.term n) _ raise in
              let (a, b, c) = behind in
              accept_entries-IsBehind now request raised m r resumed
                (ground (arith, raises, a, b, c)) accepted)
        | inr (inr (_, accepted)) ↦
            accept_entries-IsBehind now request n m r resumed behind accepted
      ]

  Step-IsBehind : {n m : Node DB FS} → IsBehind n → Step n m → IsBehind m
  Step-IsBehind {n} {m} behind (vote_request now request r h) =
      vote_request-IsBehind now request n m r behind h
  Step-IsBehind {n} {m} behind (vote_response now response h) =
      vote_response-IsBehind now response n m behind h
  Step-IsBehind {n} {m} behind (election now later election_timeout request h) =
      election-IsBehind now later election_timeout n m request behind h
  Step-IsBehind {n} {m} behind (append_request now request r resumed h) =
      append_request-IsBehind now request n m r resumed behind h
  Step-IsBehind {n} {m} behind (append_response now response resumed h) =
      append_response-IsBehind now response n m resumed behind h

  Reach-IsBehind : {n m : Node DB FS} → IsBehind n → Reach n m → IsBehind m
  Reach-IsBehind behind here = behind
  Reach-IsBehind behind (next run step) = Step-IsBehind (Reach-IsBehind behind run) step

  -- A heartbeat of the leader that the node follows, which tells it of a commit.
  heartbeat-none :
      (now : ℕ) (request : AppendEntriesRequest) (n : Node DB FS)
      → IsBehind n
      → request.term ≡ n.hard_state.current_term
      → log_ok n.logs request.prev_log_index request.prev_log_term ≡ some true
      → request.entries ≡ []
      → 0 < min (last_log_index n.logs) request.leader_commit
      → handle_append_entries_request w now request n ≡ none
  unfolding handle_append_entries_request accept_entries store_entries follow_commit
  heartbeat-none now request n (a, b, c) term fits no_entries commits =
      let moved : Node DB FS = record n {
        leader_id = some request.leader_id;
        last_reset_time = now;
        commit_index = min (last_log_index n.logs) request.leader_commit;
      } in
      let aborts = apply_committed-none now moved b c commits in ground (arith, aborts)

  create-IsBehind :
      (statx : FS → Str → Option ℕ) (fuel : ℕ) (c : Settings) (database : Result DB) (fs : FS)
      (n : Node DB FS)
      → create w statx fuel c database fs ≡ some (ok n)
      → 0 < n.logs.last_included_index
      → IsBehind n
  unfolding create
  create-IsBehind statx fuel c database fs n h included = (ground arith, ground arith, included)

  -- A node that started from a snapshot at an index above 0, after any run of the handlers of votes and
  -- of entries and of the timer of elections in which every step has a result, has committed and
  -- applied nothing. The next request without entries that is of its term, names an entry of its log
  -- with the right term as the one before, and tells of a commit up to an index above 0 in its log
  -- makes it abort.
  pub create-handle_append_entries_request :
      (statx : FS → Str → Option ℕ) (fuel : ℕ) (c : Settings) (database : Result DB) (fs : FS)
      (n m : Node DB FS) (now : ℕ) (request : AppendEntriesRequest)
      → create w statx fuel c database fs ≡ some (ok n)
      → 0 < n.logs.last_included_index
      → Reach n m
      → request.term ≡ m.hard_state.current_term
      → log_ok m.logs request.prev_log_index request.prev_log_term ≡ some true
      → request.entries ≡ []
      → 0 < min (last_log_index m.logs) request.leader_commit
      → (m.commit_index ≡ 0)
        × (m.last_applied ≡ 0)
        × (handle_append_entries_request w now request m ≡ none)
  create-handle_append_entries_request statx fuel c database fs n m now request h included run term
        fits no_entries commits =
      let behind = Reach-IsBehind (create-IsBehind statx fuel c database fs n h included) run in
      (behind.0, behind.1, heartbeat-none now request m behind term fits no_entries commits)
