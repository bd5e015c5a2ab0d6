-- ===== src/Node/Elections.antt =====
-- Winning an election, and what a winner and a voter forget.
use vosfs.Common.{
  ℕ, ◌/◌, ◌<◌, true, false, none, some, ◌≡◌, sym, ap, ◌∙◌, inl, inr, add64, arith, Bool-cases,
  if-terms, some-same,
}
use vosfs.Common.Result.{ok}
use vosfs.Api.{RequestVoteRequest, RequestVoteResponse}
use vosfs.RaftLog.Defs.{last_log_index}
use vosfs.Persister.Defs.{save_hard_state, load_hard_state}
use vosfs.Node.Defs.{World, Node, leader, candidate, is_leader, cluster_size}
use vosfs.Node.Terms.{persist, become_leader}
use vosfs.Node.Votes.{
  grant_vote, handle_request_vote_request, handle_request_vote_response, count_vote,
}
use vosfs.Node.Voting.{increase_term_to-eq}

module _ {DB FS : Type 0} (w : World DB FS) where
  count_vote-elected :
      (n m : Node DB FS)
      → count_vote w n ≡ some m
      → is_leader n.role ≡ false
      → m.role ≡ leader
      → (n.role ≡ candidate) × (cluster_size n / 2 < add64 n.votes 1)
  unfolding count_vote
  count_vote-elected n m h other elected = ground arith

  -- A node that was no leader is leader after a response only if it was a candidate, the response
  -- is of its term and grants the vote, and its votes, this one included, are more than half of
  -- the cluster.
  pub handle_request_vote_response-elected :
      (now : ℕ) (response : RequestVoteResponse) (n m : Node DB FS)
      → handle_request_vote_response w now response n ≡ some m
      → is_leader n.role ≡ false
      → m.role ≡ leader
      → (n.role ≡ candidate)
        × (response.term ≡ n.hard_state.current_term)
        × (response.vote_granted ≡ true)
        × (cluster_size n / 2 < add64 n.votes 1)
  unfolding handle_request_vote_response
  handle_request_vote_response-elected now response n m h other elected =
      elim (if-terms response.term n.hard_state.current_term _ _ _ (some m) h) [
        | inl (old, same) ↦
            (let role = ap (λ k. k.role) (some-same same) in ground (arith, role, other, elected))
        | inr (inl (new, raise)) ↦
            (let (_, role, _, _) = increase_term_to-eq w now response.term n m raise in
              ground (arith, role, elected))
        | inr (inr (same, rest)) ↦ elim (Bool-cases response.vote_granted) [
          | inl granted ↦
              (let counted : count_vote w n ≡ some m = ground (arith, rest, granted, other) in
                let (role, many) = count_vote-elected n m counted other elected in
                (role, same, granted, many))
          | inr refused ↦
              (let kept : some n ≡ some m = ground (arith, rest, refused, other) in
                let role = ap (λ k. k.role) (some-same kept) in
                ground (arith, role, other, elected))
        ]
      ]

  become_leader-state :
      (n m : Node DB FS)
      → become_leader w n ≡ some m
      → (m.hard_state ≡ record { current_term = n.hard_state.current_term; voted_for = none })
        × (m.role ≡ leader)
  unfolding become_leader persist save_hard_state
  become_leader-state n m h = ground arith

  handle_request_vote_request-same :
      (now : ℕ) (request : RequestVoteRequest) (n : Node DB FS)
      → request.term ≡ n.hard_state.current_term
      → handle_request_vote_request w now request n ≡ some (grant_vote w now request n)
  unfolding handle_request_vote_request
  handle_request_vote_request-same now request n term = ground arith

  grant_vote-longer :
      (now : ℕ) (request : RequestVoteRequest) (n : Node DB FS)
      → n.hard_state.voted_for ≡ none
      → last_log_index n.logs < request.last_log_index
      → ((grant_vote w now request n).1.vote_granted ≡ true)
        × ((grant_vote w now request n).0.role ≡ n.role)
        × ((grant_vote w now request n).0.hard_state.current_term ≡ n.hard_state.current_term)
  unfolding grant_vote
  grant_vote-longer now request n unvoted longer = ground arith

  -- A node that has just become leader of a term grants its vote in the same term to any
  -- candidate whose log is longer, and stays leader: its vote for itself was cleared.
  pub become_leader-handle_request_vote_request :
      (now : ℕ) (request : RequestVoteRequest) (n m : Node DB FS)
      → become_leader w n ≡ some m
      → request.term ≡ n.hard_state.current_term
      → last_log_index m.logs < request.last_log_index
      → (k : Node DB FS) × (r : RequestVoteResponse) × (handle_request_vote_request w now request m
          ≡ some (k, r))
        × (r.vote_granted ≡ true)
        × (k.role ≡ leader)
        × (k.hard_state.current_term ≡ n.hard_state.current_term)
  become_leader-handle_request_vote_request now request n m h term longer =
      let (state, role) = become_leader-state n m h in
      let kept = ap (λ s. s.current_term) state in
      let (granted, stays, same) =
        grant_vote-longer now request m (ap (λ s. s.voted_for) state) longer in
      (
        (grant_vote w now request m).0,
        (grant_vote w now request m).1,
        handle_request_vote_request-same now request m (term ∙ sym kept),
        granted,
        stays ∙ role,
        same ∙ kept,
      )

  -- A vote that is granted in the node's own term is not written to the database: what a restart
  -- loads is the state before the vote.
  pub handle_request_vote_request-load_hard_state :
      (now : ℕ) (request : RequestVoteRequest) (n m : Node DB FS) (r : RequestVoteResponse)
      → load_hard_state w.engine w.hard_state_codec n.db ≡ (ok n.hard_state, n.db)
      → request.term ≡ n.hard_state.current_term
      → n.hard_state.voted_for ≡ none
      → handle_request_vote_request w now request n ≡ some (m, r)
      → r.vote_granted ≡ true
      → (m.hard_state.voted_for ≡ some request.candidate_id)
        × (load_hard_state w.engine w.hard_state_codec m.db ≡ (ok n.hard_state, m.db))
  unfolding handle_request_vote_request grant_vote
  handle_request_vote_request-load_hard_state now request n m r stored term unvoted h granted =
      ground arith
