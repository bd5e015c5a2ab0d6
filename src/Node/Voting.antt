-- ===== src/Node/Voting.antt =====
-- What the handlers of elections guarantee, and where they do not guarantee a single leader.
use vosfs.Common.{
  ℕ, ◌≤◌, ◌<◌, true, false, none, some, ◌≡◌, refl, sym, ap, subst, ◌∙◌, ◌⊎◌, inl, inr, ◌&&◌, ◌||◌,
  ◌==◌, ltb, arith, >>=-eq-some, if-terms, some-same,
}
use vosfs.Api.{RequestVoteRequest, RequestVoteResponse}
use vosfs.RaftLog.Defs.{last_log_index, last_log_term}
use vosfs.Persister.Defs.{save_hard_state}
use vosfs.Node.Defs.{World, Node, follower}
use vosfs.Node.Terms.{persist, increase_term_to}
use vosfs.Node.Votes.{free_to_vote, up_to_date_log, grant_vote, handle_request_vote_request}

pub eq-same : (a b : ℕ) → (a == b) ≡ true → a ≡ b
eq-same a b h = ground arith

module _ {DB FS : Type 0} (w : World DB FS) where
  pub increase_term_to-eq :
      (now term : ℕ) (n k : Node DB FS)
      → increase_term_to w now term n ≡ some k
      → (k.hard_state ≡ record { current_term = term; voted_for = none })
        × (k.role ≡ follower)
        × (k.logs ≡ n.logs)
        × (k.commit_index ≡ n.commit_index)
  unfolding increase_term_to persist save_hard_state
  increase_term_to-eq now term n k h = ground arith

  grant_vote-granted :
      (now : ℕ) (request : RequestVoteRequest) (n m : Node DB FS) (r : RequestVoteResponse)
      → grant_vote w now request n ≡ (m, r)
      → r.vote_granted ≡ true
      → (m.hard_state ≡ record {
        current_term = n.hard_state.current_term;
        voted_for = some request.candidate_id;
      })
        × (free_to_vote n.hard_state request.candidate_id ≡ true)
        × (up_to_date_log w n request ≡ true)
  unfolding grant_vote
  grant_vote-granted now request n m r h granted = ground arith

  grant_vote-term :
      (now : ℕ) (request : RequestVoteRequest) (n m : Node DB FS) (r : RequestVoteResponse)
      → grant_vote w now request n ≡ (m, r)
      → (m.hard_state.current_term ≡ n.hard_state.current_term)
        × (r.term ≡ n.hard_state.current_term)
  unfolding grant_vote
  grant_vote-term now request n m r h = ground arith

  -- The three ways of the handler: an old term, the same term, and a new one.
  pub vote-ways :
      (now : ℕ) (request : RequestVoteRequest) (n m : Node DB FS) (r : RequestVoteResponse)
      → handle_request_vote_request w now request n ≡ some (m, r)
      → (request.term < n.hard_state.current_term
          × (m ≡ n)
          × (r.term ≡ n.hard_state.current_term)
          × (r.vote_granted ≡ false))
        ⊎ ((k : Node DB FS) × (k.hard_state.current_term ≡ request.term)
            × (grant_vote w now request k ≡ (m, r))
            × (k.logs ≡ n.logs)
            × ((k ≡ n) ⊎ (n.hard_state.current_term < request.term)))
  unfolding handle_request_vote_request
  vote-ways now request n m r h =
      elim (if-terms request.term n.hard_state.current_term _ _ _ (some (m, r)) h) [
        | inl (old, refused) ↦ ground (arith, old, refused)
        | inr (inl (new, raise)) ↦
            (let (k, raised, granted) =
                >>=-eq-some (increase_term_to w now request.term n) _ raise in
              let (state, _, logs, _) = increase_term_to-eq now request.term n k raised in
              inr (k, ap (λ s. s.current_term) state, some-same granted, logs, inr new))
        | inr (inr (same, granted)) ↦ inr (n, sym same, some-same granted, refl, inl refl)
      ]

  -- A vote that is granted is the vote of the request's term and candidate. In a term that the
  -- node was in already, it had not voted or had voted for the same candidate. The candidate's
  -- log passed the test.
  pub handle_request_vote_request-granted :
      (now : ℕ) (request : RequestVoteRequest) (n m : Node DB FS) (r : RequestVoteResponse)
      → handle_request_vote_request w now request n ≡ some (m, r)
      → r.vote_granted ≡ true
      → (m.hard_state
          ≡ record { current_term = request.term; voted_for = some request.candidate_id })
        × ((free_to_vote n.hard_state request.candidate_id ≡ true)
            ⊎ (n.hard_state.current_term < request.term))
        × (up_to_date_log w n request ≡ true)
  handle_request_vote_request-granted now request n m r h granted =
      elim (vote-ways now request n m r h) [
        | inl (_, _, _, refused) ↦ ground (arith, refused, granted)
        | inr (k, term, voted, logs, way) ↦
            (let (state, free, log) = grant_vote-granted now request k m r voted granted in
              (
                state
                    ∙ ap (λ t. record { current_term = t; voted_for = some request.candidate_id })
                        term,
                elim way [
                  | inl same ↦
                      inl (
                        subst (λ j. free_to_vote j.hard_state request.candidate_id ≡ true) same
                          free)
                  | inr new ↦ inr new
                ],
                subst
                    (λ l.
                      (ltb (last_log_index l) request.last_log_index
                        || (request.last_log_index == last_log_index l
                            && request.last_log_term == last_log_term l))
                      ≡ true)
                    logs log,
              ))
      ]

  -- The term of a node never falls when it handles a request for its vote, it is at least the
  -- term of the request afterwards, and the response carries it.
  pub handle_request_vote_request-term :
      (now : ℕ) (request : RequestVoteRequest) (n m : Node DB FS) (r : RequestVoteResponse)
      → handle_request_vote_request w now request n ≡ some (m, r)
      → (n.hard_state.current_term ≤ m.hard_state.current_term)
        × (request.term ≤ m.hard_state.current_term)
        × (r.term ≡ m.hard_state.current_term)
  handle_request_vote_request-term now request n m r h = elim (vote-ways now request n m r h) [
    | inl (old, same, term, _) ↦
        (let kept = ap (λ j. j.hard_state.current_term) same in ground (arith, old, kept, term))
    | inr (k, term, voted, _, way) ↦
        (let (kept, reply) = grant_vote-term now request k m r voted in
          elim way [
            | inl same ↦
                (let start = ap (λ j. j.hard_state.current_term) same in
                  ground (arith, term, kept, reply, start))
            | inr new ↦ ground (arith, term, kept, reply, new)
          ])
  ]

  -- A node that grants two requests of one term, one after the other, grants both to the same
  -- candidate.
  pub handle_request_vote_request-once :
      (now later : ℕ) (a b : RequestVoteRequest) (n m k : Node DB FS) (p q : RequestVoteResponse)
      → handle_request_vote_request w now a n ≡ some (m, p)
      → p.vote_granted ≡ true
      → handle_request_vote_request w later b m ≡ some (k, q)
      → q.vote_granted ≡ true
      → a.term ≡ b.term
      → a.candidate_id ≡ b.candidate_id
  handle_request_vote_request-once now later a b n m k p q first granted second again terms =
      let (state, _, _) = handle_request_vote_request-granted now a n m p first granted in
      let (_, free, _) = handle_request_vote_request-granted later b m k q second again in
      let term = ap (λ s. s.current_term) state in
      elim free [
        | inl fits ↦
            eq-same a.candidate_id b.candidate_id
              (subst (λ t. free_to_vote t b.candidate_id ≡ true) state fits)
        | inr new ↦ ground (arith, term, terms, new)
      ]
