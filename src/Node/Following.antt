-- ===== src/Node/Following.antt =====
-- What the handler of append entries keeps and answers.
use vosfs.Common.{
  ℕ, ◌≤◌, ◌<◌, ◌∷◌, [], List, true, false, some, ◌≡◌, sym, ap, subst, ◌∙◌, ◌⊎◌, inl, inr, leb, ltb,
  ◌==◌, ◌&&◌, not, arith, if-terms, if-ways, some-same, >>=-eq-some,
}
use vosfs.Api.{LogEntry, AppendEntriesRequest, AppendEntriesResponse}
use vosfs.StateMachine.Apply.{Resumed}
use vosfs.Persister.Defs.{save_entries, truncate_entries}
use vosfs.RaftLog.Defs.{RaftLog, last_log_index, get_term, truncate_entries_before}
use vosfs.Node.Defs.{World, Node}
use vosfs.Node.Terms.{increase_term_to}
use vosfs.Node.Voting.{increase_term_to-eq}
use vosfs.Node.Applied.{apply_committed-Kept}
use vosfs.Node.Replication.{
  log_ok, delete_conflicts, accept_entries, store_entries, follow_commit,
  handle_append_entries_request,
}

log_ok-get_term :
    (l : RaftLog) (index term : ℕ)
    → log_ok l index term ≡ some true
    → (get_term l index ≡ some term) × (l.last_included_index ≤ index) × (index ≤ last_log_index l)
unfolding log_ok
log_ok-get_term l index term h =
    elim (if-ways (leb index (last_log_index l) && leb l.last_included_index index) _ _ (some true)
      h) [
        | inl (inside, read) ↦
            (let (held, found, same) = >>=-eq-some (get_term l index) _ read in
              let equal : term ≡ held = ground (arith, same) in
              (found ∙ ap some (sym equal), ground (arith, inside), ground (arith, inside)))
        | inr (_, no_entry) ↦ ground (arith, no_entry)
      ]

module _ {DB FS : Type 0} (w : World DB FS) where
  delete_conflicts-hard_state :
      (es : List LogEntry) (n m : Node DB FS)
      → delete_conflicts w es n ≡ some m
      → m.hard_state ≡ n.hard_state
  unfolding delete_conflicts
  delete_conflicts-hard_state [] n m h = ap (λ k. k.hard_state) (sym (some-same h))
  delete_conflicts-hard_state (e ∷ es) n m h =
      elim (if-ways (ltb (last_log_index n.logs) e.index) _ _ (some m) h) [
        | inl (_, same) ↦ ap (λ k. k.hard_state) (sym (some-same same))
        | inr (_, rest) ↦
            (let (term, _, next) = >>=-eq-some (get_term n.logs e.index) _ rest in
              elim (if-ways (term == e.term) _ _ (some m) next) [
                | inl (_, more) ↦ delete_conflicts-hard_state es n m more
                | inr (_, cut) ↦
                    (let (db, _, cut_log) =
                        >>=-eq-some
                          (truncate_entries w.engine w.entry_codec n.db e.index
                            (last_log_index n.logs))
                          _ cut in
                      let (logs, _, end) =
                        >>=-eq-some (truncate_entries_before n.logs e.index) _ cut_log in
                      ap (λ k. k.hard_state) (sym (some-same end)))
              ])
      ]

  store_entries-hard_state :
      (es : List LogEntry) (n m : Node DB FS)
      → store_entries w es n ≡ some m
      → m.hard_state ≡ n.hard_state
  unfolding store_entries
  store_entries-hard_state [] n m h = ap (λ k. k.hard_state) (sym (some-same h))
  store_entries-hard_state (e ∷ es) n m h =
      let (kept, cut, rest) = >>=-eq-some (delete_conflicts w (e ∷ es) n) _ h in
      let (db, _, end) =
        >>=-eq-some (save_entries w.engine w.entry_codec kept.db (e ∷ es)) _ rest in
      ap (λ k. k.hard_state) (sym (some-same end)) ∙ delete_conflicts-hard_state (e ∷ es) n kept cut

  follow_commit-hard_state :
      (now leader_commit : ℕ) (n m : Node DB FS) (resumed : List Resumed)
      → follow_commit w now leader_commit n ≡ some (m, resumed)
      → m.hard_state ≡ n.hard_state
  unfolding follow_commit
  follow_commit-hard_state now leader_commit n m resumed h =
      elim (if-ways (ltb n.commit_index leader_commit) _ _ (some (m, resumed)) h) [
        | inl (_, applied) ↦
            (let (_, _, kept, _, _) = apply_committed-Kept w now _ m resumed applied in kept)
        | inr (_, same) ↦ ap (λ p. p.0.hard_state) (sym (some-same same))
      ]

  pub accept_entries-ways :
      (now : ℕ) (request : AppendEntriesRequest) (n m : Node DB FS) (r : AppendEntriesResponse)
      (resumed : List Resumed)
      → accept_entries w now request n ≡ some (m, r, resumed)
      → (m.hard_state ≡ n.hard_state)
        × (r.term ≡ m.hard_state.current_term)
        × ((r.success ≡ false)
            ⊎ (log_ok n.logs request.prev_log_index request.prev_log_term ≡ some true))
  unfolding accept_entries
  accept_entries-ways now request n m r resumed h =
      let (matches, found, rest) =
        >>=-eq-some (log_ok n.logs request.prev_log_index request.prev_log_term) _ h in
      elim (if-ways (not matches) _ _ (some (m, r, resumed)) rest) [
        | inl (_, refused) ↦
            (let same = some-same refused in
              (
                ap (λ p. p.0.hard_state) (sym same),
                ap (λ p. p.1.term) (sym same) ∙ ap (λ p. p.0.hard_state.current_term) same,
                inl (ap (λ p. p.1.success) (sym same)),
              ))
        | inr (fits, accepted) ↦
            (let (stored, store, following) =
                >>=-eq-some (store_entries w request.entries _) _ accepted in
              let ((followed, replies), follow, end) =
                >>=-eq-some (follow_commit w now request.leader_commit stored) _ following in
              let same = some-same end in
              (
                ap (λ p. p.0.hard_state) (sym same)
                    ∙ follow_commit-hard_state now request.leader_commit stored followed replies
                        follow
                    ∙ store_entries-hard_state request.entries _ stored store,
                ap (λ p. p.1.term) (sym same) ∙ ap (λ p. p.0.hard_state.current_term) same,
                inr (ground (arith, found, fits)),
              ))
      ]

  request-ways :
      (now : ℕ) (request : AppendEntriesRequest) (n m : Node DB FS) (r : AppendEntriesResponse)
      (resumed : List Resumed)
      → handle_append_entries_request w now request n ≡ some (m, r, resumed)
      → ((request.term < n.hard_state.current_term)
          × (m ≡ n)
          × (r.term ≡ n.hard_state.current_term)
          × (r.success ≡ false))
        ⊎ ((n.hard_state.current_term ≤ request.term)
            × (m.hard_state.current_term ≡ request.term)
            × (r.term ≡ m.hard_state.current_term)
            × ((r.success ≡ false)
                ⊎ (log_ok n.logs request.prev_log_index request.prev_log_term ≡ some true)))
  unfolding handle_append_entries_request
  request-ways now request n m r resumed h =
      elim (if-terms request.term n.hard_state.current_term _ _ _ (some (m, r, resumed)) h) [
        | inl (old, refused) ↦
            (let same = some-same refused in
              inl (
                old,
                ap (λ p. p.0) (sym same),
                ap (λ p. p.1.term) (sym same),
                ap (λ p. p.1.success) (sym same),
              ))
        | inr (inl (new, raise)) ↦
            (let (k, raised, accepted) =
                >>=-eq-some (increase_term_to w now request.term n) _ raise in
              let (state, _, logs, _) = increase_term_to-eq w now request.term n k raised in
              let (kept, reply, way) = accept_entries-ways now request k m r resumed accepted in
              let term = ap (λ s. s.current_term) (kept ∙ state) in
              inr (
                omega (arith, new),
                term,
                reply,
                subst
                    (λ l.
                      (r.success ≡ false)
                      ⊎ (log_ok l request.prev_log_index request.prev_log_term ≡ some true))
                    logs way,
              ))
        | inr (inr (same, accepted)) ↦
            (let (kept, reply, way) = accept_entries-ways now request n m r resumed accepted in
              inr (omega (arith, same), ap (λ s. s.current_term) kept ∙ sym same, reply, way))
      ]

  -- The term of a node never falls when it handles a request to append entries, it is at least the
  -- term of the request afterwards, and the response carries it.
  pub handle_append_entries_request-term :
      (now : ℕ) (request : AppendEntriesRequest) (n m : Node DB FS) (r : AppendEntriesResponse)
      (resumed : List Resumed)
      → handle_append_entries_request w now request n ≡ some (m, r, resumed)
      → (n.hard_state.current_term ≤ m.hard_state.current_term)
        × (request.term ≤ m.hard_state.current_term)
        × (r.term ≡ m.hard_state.current_term)
  handle_append_entries_request-term now request n m r resumed h =
      elim (request-ways now request n m r resumed h) [
        | inl (old, same, reply, _) ↦
            (let term = ap (λ k. k.hard_state.current_term) same in
              ground (arith, old, term, reply))
        | inr (from, term, reply, _) ↦ ground (arith, from, term, reply)
      ]

  -- A request that is answered with success is of no older term than the node was in, is of the term
  -- that the node is in afterwards, and its entry before the new ones was in the node's log.
  pub handle_append_entries_request-success :
      (now : ℕ) (request : AppendEntriesRequest) (n m : Node DB FS) (r : AppendEntriesResponse)
      (resumed : List Resumed)
      → handle_append_entries_request w now request n ≡ some (m, r, resumed)
      → r.success ≡ true
      → (n.hard_state.current_term ≤ request.term)
        × (m.hard_state.current_term ≡ request.term)
        × (get_term n.logs request.prev_log_index ≡ some request.prev_log_term)
        × (n.logs.last_included_index ≤ request.prev_log_index)
        × (request.prev_log_index ≤ last_log_index n.logs)
  handle_append_entries_request-success now request n m r resumed h success =
      elim (request-ways now request n m r resumed h) [
        | inl (_, _, _, refused) ↦ ground (arith, success, refused)
        | inr (from, term, reply, inl refused) ↦ ground (arith, success, refused)
        | inr (from, term, reply, inr fits) ↦
            (let (held, low, high) =
                log_ok-get_term n.logs request.prev_log_index request.prev_log_term fits in
              (from, term, held, low, high))
      ]
