-- ===== src/Node/Votes.antt =====
-- Elections: the body of `election_loop`, and the two handlers of votes.
use vosfs.Common.{
  ℕ, ◌/◌, Bool, true, false, Option, none, some, ◌&&◌, ◌||◌, ◌==◌, ltb, if◌then◌else◌, add64, sub64,
  ◌>>=◌,
}
use vosfs.Api.{HardState, RequestVoteRequest, RequestVoteResponse}
use vosfs.RaftLog.Defs.{last_log_index, last_log_term}
use vosfs.Node.Defs.{World, Node, candidate, is_leader, is_candidate, cluster_size}
use vosfs.Node.Terms.{persist, increase_term_to, become_leader}

-- `!has_voted_for() || voted_for() == candidate_id`
abbrev pub free_to_vote : HardState → ℕ → Bool
free_to_vote h candidate_id = elim h.voted_for [ none ↦ true | some v ↦ v == candidate_id ]

module _ {DB FS : Type 0} (w : World DB FS) where
  -- The test of the candidate's log.
  abbrev pub up_to_date_log : Node DB FS → RequestVoteRequest → Bool
  up_to_date_log n request =
      ltb (last_log_index n.logs) request.last_log_index
      || (request.last_log_index == last_log_index n.logs
          && request.last_log_term == last_log_term n.logs)

  -- `RaftNode::handle_request_vote_request` from the point where the terms are the same.
  unfoldable pub grant_vote : ℕ → RequestVoteRequest → Node DB FS → Node DB FS × RequestVoteResponse
  unfolding last_log_term
  grant_vote now request n =
      let can_vote = free_to_vote n.hard_state request.candidate_id && up_to_date_log n request in
      (
        if can_vote
            then record n {
              hard_state = record (n.hard_state) { voted_for = some request.candidate_id };
              last_reset_time = now;
            }
            else n,
        record { id = n.member_id; term = n.hard_state.current_term; vote_granted = can_vote },
      )

  -- `RaftNode::handle_request_vote_request`
  unfoldable pub handle_request_vote_request :
      ℕ → RequestVoteRequest → Node DB FS → Option (Node DB FS × RequestVoteResponse)
  unfolding grant_vote increase_term_to
  handle_request_vote_request now request n =
      if ltb request.term n.hard_state.current_term
      then some
          (n, record { id = n.member_id; term = n.hard_state.current_term; vote_granted = false })
      else if ltb n.hard_state.current_term request.term
      then (do raised ← increase_term_to w now request.term n; some (grant_vote now request raised))
      else some (grant_vote now request n)

  -- `++votes_ > cluster_size / 2` and the candidate becomes leader.
  unfoldable pub count_vote : Node DB FS → Option (Node DB FS)
  unfolding become_leader
  count_vote given =
      let n = record given { votes = add64 given.votes 1 } in
      if ltb (cluster_size n / 2) n.votes && is_candidate n.role then become_leader w n else some n

  -- `RaftNode::handle_request_vote_response`
  unfoldable pub handle_request_vote_response :
      ℕ → RequestVoteResponse → Node DB FS → Option (Node DB FS)
  unfolding count_vote increase_term_to
  handle_request_vote_response now response n =
      if ltb response.term n.hard_state.current_term
      then some n
      else if ltb n.hard_state.current_term response.term
      then increase_term_to w now response.term n
      else if is_leader n.role
      then some n
      else if response.vote_granted
      then count_vote n
      else some n

  -- The part of `election_loop` under the mutex: the node becomes a candidate of the next term,
  -- votes for itself, and asks the other members for their votes.
  unfoldable pub start_election : Node DB FS → Option (Node DB FS × RequestVoteRequest)
  unfolding count_vote
  start_election n = do
    let term = add64 n.hard_state.current_term 1
    asking ← persist w (record n {
      votes = 0;
      hard_state = record { current_term = term; voted_for = some n.member_id };
      role = candidate;
    })
    let request : RequestVoteRequest = record {
      term = term;
      candidate_id = asking.member_id;
      last_log_index = last_log_index asking.logs;
      last_log_term = last_log_term asking.logs;
    }
    counted ← count_vote asking
    some (counted, request)

  -- One round of `election_loop` after its sleep of `election_timeout`; the request, if there is
  -- one, goes to every other member. `now` is read before the lock and `later` after the broadcast.
  unfoldable pub election_round :
      ℕ → ℕ → ℕ → Node DB FS → Option (Node DB FS × Option RequestVoteRequest)
  election_round now later election_timeout n =
      if ltb (sub64 now n.last_reset_time) election_timeout || is_leader n.role
      then some (n, none)
      else (do
        (started, request) ← start_election n
        some (record started { last_reset_time = later }, some request))
