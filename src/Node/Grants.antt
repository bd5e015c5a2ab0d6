-- ===== src/Node/Grants.antt =====
-- The votes that a node grants in a run of requests from candidates and leaders.
use vosfs.Common.{
  ℕ, zero, suc, ◌<◌, ◌∷◌, [], List, true, false, none, some, ◌≡◌, sym, ap, subst, ◌∙◌, ◌⊎◌, inl,
  inr, arith, if-terms, some-same, >>=-eq-some, get_elem?, All, All-map,
}
use vosfs.Api.{
  HardState, RequestVoteRequest, RequestVoteResponse, AppendEntriesRequest, AppendEntriesResponse,
}
use vosfs.StateMachine.Apply.{Resumed}
use vosfs.Node.Defs.{World, Node}
use vosfs.Node.Terms.{increase_term_to}
use vosfs.Node.Votes.{grant_vote, handle_request_vote_request}
use vosfs.Node.Replication.{handle_append_entries_request}
use vosfs.Node.Voting.{increase_term_to-eq, vote-ways, handle_request_vote_request-granted}
use vosfs.Node.Following.{accept_entries-ways}

-- The state after a step: a new term, or the same term with no vote taken back.
abbrev Later : HardState → HardState → Type 0
Later s t =
    (s.current_term < t.current_term)
    ⊎ ((s.current_term ≡ t.current_term) × ((t.voted_for ≡ s.voted_for) ⊎ (s.voted_for ≡ none)))

-- A vote for the candidate in the term is over, or is the one that the state holds.
abbrev KeptVote : HardState → ℕ × ℕ → Type 0
KeptVote s g = (g.0 < s.current_term) ⊎ ((g.0 ≡ s.current_term) × (s.voted_for ≡ some g.1))

Later-KeptVote : (s t : HardState) (g : ℕ × ℕ) → Later s t → KeptVote s g → KeptVote t g
Later-KeptVote s t g later kept = ground arith

same-Later : (s t : HardState) → t ≡ s → Later s t
same-Later s t same = inr (ap (λ x. x.current_term) (sym same), inl (ap (λ x. x.voted_for) same))

All-get_elem? :
    (P : ℕ × ℕ → Type 0) (xs : List (ℕ × ℕ)) (i : ℕ) (x : ℕ × ℕ)
    → All P xs
    → get_elem? xs i ≡ some x
    → P x
All-get_elem? P [] i x all found = ground (arith, found)
All-get_elem? P (y ∷ ys) zero x (first, all) found = subst P (some-same found) first
All-get_elem? P (y ∷ ys) (suc i) x (first, all) found = All-get_elem? P ys i x all found

module _ {DB FS : Type 0} (w : World DB FS) where
  grant_vote-Later :
      (now : ℕ) (request : RequestVoteRequest) (n m : Node DB FS) (r : RequestVoteResponse)
      → grant_vote w now request n ≡ (m, r)
      → Later n.hard_state m.hard_state
  unfolding grant_vote
  grant_vote-Later now request n m r h = ground arith

  vote-Later :
      (now : ℕ) (request : RequestVoteRequest) (n m : Node DB FS) (r : RequestVoteResponse)
      → handle_request_vote_request w now request n ≡ some (m, r)
      → Later n.hard_state m.hard_state
  vote-Later now request n m r h = elim (vote-ways w now request n m r h) [
    | inl (_, same, _, _) ↦ same-Later _ _ (ap (λ k. k.hard_state) same)
    | inr (k, term, voted, _, inl same) ↦
        subst (λ j. Later j.hard_state m.hard_state) same (grant_vote-Later now request k m r voted)
    | inr (k, term, voted, _, inr new) ↦
        (let later = grant_vote-Later now request k m r voted in
          inl (ground (arith, later, term, new)))
  ]

  append-Later :
      (now : ℕ) (request : AppendEntriesRequest) (n m : Node DB FS) (r : AppendEntriesResponse)
      (resumed : List Resumed)
      → handle_append_entries_request w now request n ≡ some (m, r, resumed)
      → Later n.hard_state m.hard_state
  unfolding handle_append_entries_request
  append-Later now request n m r resumed h =
      elim (if-terms request.term n.hard_state.current_term _ _ _ (some (m, r, resumed)) h) [
        | inl (_, refused) ↦ same-Later _ _ (ap (λ p. p.0.hard_state) (sym (some-same refused)))
        | inr (inl (new, raise)) ↦
            (let (k, raised, accepted) =
                >>=-eq-some (increase_term_to w now request.term n) _ raise in
              let (state, _, _, _) = increase_term_to-eq w now request.term n k raised in
              let (kept, _, _) = accept_entries-ways w now request k m r resumed accepted in
              let term = ap (λ s. s.current_term) (kept ∙ state) in inl (omega (arith, new, term)))
        | inr (inr (_, accepted)) ↦
            (let (kept, _, _) = accept_entries-ways w now request n m r resumed accepted in
              same-Later _ _ kept)
      ]

  -- A run from a node to a node, with the votes it granted, the last one first: their terms and
  -- candidates.
  pub data Run (n : Node DB FS) : List (ℕ × ℕ) → Node DB FS → Type 0 where
    start : Run n [] n
    grant :
        {votes : List (ℕ × ℕ)} {m k : Node DB FS} (now : ℕ) (request : RequestVoteRequest)
        (r : RequestVoteResponse)
        → Run n votes m
        → handle_request_vote_request w now request m ≡ some (k, r)
        → r.vote_granted ≡ true
        → Run n ((request.term, request.candidate_id) ∷ votes) k
    refuse :
        {votes : List (ℕ × ℕ)} {m k : Node DB FS} (now : ℕ) (request : RequestVoteRequest)
        (r : RequestVoteResponse)
        → Run n votes m
        → handle_request_vote_request w now request m ≡ some (k, r)
        → r.vote_granted ≡ false
        → Run n votes k
    append :
        {votes : List (ℕ × ℕ)} {m k : Node DB FS} (now : ℕ) (request : AppendEntriesRequest)
        (r : AppendEntriesResponse) (resumed : List Resumed)
        → Run n votes m
        → handle_append_entries_request w now request m ≡ some (k, r, resumed)
        → Run n votes k

  Run-KeptVote :
      (n m : Node DB FS) (votes : List (ℕ × ℕ)) → Run n votes m → All (KeptVote m.hard_state) votes
  Run-KeptVote n m [] start = tt
  Run-KeptVote n k _ (grant {votes} {m} now request r run h granted) =
      let (state, _, _) = handle_request_vote_request-granted w now request m k r h granted in
      let term = ap (λ s. s.current_term) state in
      let voted = ap (λ s. s.voted_for) state in
      (
        inr (sym term, voted),
        All-map (KeptVote m.hard_state) (KeptVote k.hard_state) votes
            (λ g kept.
              Later-KeptVote m.hard_state k.hard_state g (vote-Later now request m k r h) kept)
            (Run-KeptVote n m votes run),
      )
  Run-KeptVote n k votes (refuse {m = m} now request r run h refused) =
      All-map (KeptVote m.hard_state) (KeptVote k.hard_state) votes
        (λ g kept. Later-KeptVote m.hard_state k.hard_state g (vote-Later now request m k r h) kept)
        (Run-KeptVote n m votes run)
  Run-KeptVote n k votes (append {m = m} now request r resumed run h) =
      All-map (KeptVote m.hard_state) (KeptVote k.hard_state) votes
        (λ g kept.
          Later-KeptVote m.hard_state k.hard_state g (append-Later now request m k r resumed h)
            kept)
        (Run-KeptVote n m votes run)

  -- In a run, a vote in the newest grant's term is for the newest grant's candidate.
  newest-once :
      (votes : List (ℕ × ℕ)) (s : HardState) (i t c d : ℕ)
      → All (KeptVote s) votes
      → s.current_term ≡ t
      → s.voted_for ≡ some c
      → get_elem? votes i ≡ some (t, d)
      → c ≡ d
  newest-once votes s i t c d kept term voted found =
      let held = All-get_elem? (KeptVote s) votes i (t, d) kept found in
      ground (arith, held, term, voted)

  newest-vote :
      (n m k : Node DB FS) (votes : List (ℕ × ℕ)) (now i t c d : ℕ) (request : RequestVoteRequest)
      (r : RequestVoteResponse)
      → Run n votes m
      → handle_request_vote_request w now request m ≡ some (k, r)
      → r.vote_granted ≡ true
      → request.term ≡ t
      → request.candidate_id ≡ c
      → get_elem? votes i ≡ some (t, d)
      → c ≡ d
  newest-vote n m k votes now i t c d request r run h granted term voted found =
      let (state, _, _) = handle_request_vote_request-granted w now request m k r h granted in
      let (_, kept) =
        Run-KeptVote n k ((request.term, request.candidate_id) ∷ votes)
          (grant now request r run h granted) in
      newest-once votes k.hard_state i t c d kept (ap (λ s. s.current_term) state ∙ term)
        (ap (λ s. s.voted_for) state ∙ ap some voted) found

  -- In a run of requests for the vote and to append entries, in any order, a node grants its vote to
  -- one candidate in a term at most.
  pub Run-once :
      (n m : Node DB FS) (votes : List (ℕ × ℕ)) (i j t c d : ℕ)
      → Run n votes m
      → get_elem? votes i ≡ some (t, c)
      → get_elem? votes j ≡ some (t, d)
      → c ≡ d
  Run-once n m [] i j t c d start first second = ground (arith, first)
  Run-once n k _ zero zero t c d (grant {votes} {m} now request r run h granted) first second =
      let one = some-same first in
      let two = some-same second in ap (λ g. g.1) (sym one) ∙ ap (λ g. g.1) two
  Run-once n k _ zero (suc j) t c d (grant {votes} {m} now request r run h granted) first second =
      newest-vote n m k votes now j t c d request r run h granted (ap (λ g. g.0) (some-same first))
        (ap (λ g. g.1) (some-same first)) second
  Run-once n k _ (suc i) zero t c d (grant {votes} {m} now request r run h granted) first second =
      sym (
        newest-vote n m k votes now i t d c request r run h granted
          (ap (λ g. g.0) (some-same second)) (ap (λ g. g.1) (some-same second)) first)
  Run-once n k _ (suc i) (suc j) t c d (grant {votes} {m} now request r run h granted) first
        second =
      Run-once n m votes i j t c d run first second
  Run-once n k votes i j t c d (refuse {m = m} now request r run h refused) first second =
      Run-once n m votes i j t c d run first second
  Run-once n k votes i j t c d (append {m = m} now request r resumed run h) first second =
      Run-once n m votes i j t c d run first second
