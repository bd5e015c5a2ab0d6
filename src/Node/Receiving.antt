-- ===== src/Node/Receiving.antt =====
-- The handler of `installsnapshot` on the requests that carry a whole snapshot.
use vosfs.Common.{
  take-drop, take-length, ℕ, ◌+◌, ◌∷◌, ◌++◌, [], List, true, false, some, Str, ◌≡◌, ap, sym, subst,
  ◌∙◌, ◌⊎◌, inl, inr, ◌==◌, if◌then◌else◌, arith, length, take, drop, Bool-cases,
}
use vosfs.Api.{Snapshot, InstallSnapshotRequest}
use vosfs.StateMachine.Defs
use vosfs.RaftLog.Defs as LogDefs
use vosfs.Node.Defs.{World, Node}
use vosfs.Node.Installing.{accept_chunk, handle_install_snapshot_request, respond_install}

-- The requests of one term carry the content from the offset to its end, one piece after the other, and
-- the last one says so.
abbrev pub Carries : ℕ → Str → ℕ → List InstallSnapshotRequest → Type 0
Carries term content offset [] = ⊥
Carries term content offset (r ∷ []) =
    (r.term ≡ term)
    × (r.offset ≡ offset)
    × (r.payload ≡ take (length r.payload) (drop offset content))
    × (r.done ≡ true)
    × (offset + length r.payload ≡ length content)
Carries term content offset (r ∷ s ∷ rs) =
    (r.term ≡ term)
    × (r.offset ≡ offset)
    × (r.payload ≡ take (length r.payload) (drop offset content))
    × (r.done ≡ false)
    × Carries term content (offset + length r.payload) (s ∷ rs)

module _ {DB FS : Type 0} (w : World DB FS) (content : Str) where
  -- The requests, handled one after the other, and the node after them.
  pub data Handles (now : ℕ) : List InstallSnapshotRequest → Node DB FS → Node DB FS → Type 0 where
    done : (n : Node DB FS) → Handles now [] n n
    next :
        (r : InstallSnapshotRequest) (rs : List InstallSnapshotRequest) (n k m : Node DB FS)
        → handle_install_snapshot_request w now r n ≡ some (k, respond_install k)
        → Handles now rs k m
        → Handles now (r ∷ rs) n m

  -- The node holds the bytes that were sent, or none were.
  abbrev Received : Node DB FS → ℕ → Type 0
  Received n offset = (offset ≡ 0) ⊎ (n.snapshot_data ≡ take offset content)

  joined :
      (n : Node DB FS) (offset : ℕ) (payload : Str)
      → Received n offset
      → payload ≡ take (length payload) (drop offset content)
      → (if offset == 0 then [] else n.snapshot_data) ++ payload
        ≡ take (offset + length payload) content
  joined n offset payload received piece = elim (Bool-cases (offset == 0)) [
    | inl start ↦
        (let zero_offset : offset ≡ 0 = ground (arith, start) in
          let size : length payload ≡ offset + length payload = omega (arith, zero_offset) in
          rw start (
            piece
            ∙ ap (λ k. take (length payload) (drop k content)) zero_offset
            ∙ ap (λ k. take k content) size))
    | inr later ↦
        (let held : n.snapshot_data ≡ take offset content = ground (arith, received, later) in
          rw (later, held)
            (ap (λ p. take offset content ++ p) piece ∙ take-drop offset (length payload) content))
  ]

  accept_chunk-more :
      (now : ℕ) (r : InstallSnapshotRequest) (n : Node DB FS)
      → Received n r.offset
      → r.payload ≡ take (length r.payload) (drop r.offset content)
      → r.done ≡ false
      → ((accept_chunk w now r n).snapshot_data ≡ take (r.offset + length r.payload) content)
        × ((accept_chunk w now r n).state_machine ≡ n.state_machine)
        × ((accept_chunk w now r n).logs ≡ n.logs)
        × ((accept_chunk w now r n).hard_state ≡ n.hard_state)
  unfolding accept_chunk
  accept_chunk-more now r n received piece more =
      let whole = joined n r.offset r.payload received piece in ground (arith, whole, more)

  accept_chunk-last :
      (now : ℕ) (r : InstallSnapshotRequest) (n : Node DB FS) (snapshot : Snapshot)
      → Received n r.offset
      → r.payload ≡ take (length r.payload) (drop r.offset content)
      → r.done ≡ true
      → r.offset + length r.payload ≡ length content
      → w.snapshot_codec.parse content ≡ some snapshot
      → ((accept_chunk w now r n).state_machine ≡ Defs.load_snapshot n.state_machine snapshot)
        × ((accept_chunk w now r n).logs ≡ LogDefs.load_snapshot n.logs snapshot)
  unfolding accept_chunk
  accept_chunk-last now r n snapshot received piece last end parses =
      let whole = joined n r.offset r.payload received piece in
      let all = ap (λ k. take k content) end ∙ take-length content in
      ground (arith, whole, all, last, parses)

  handled :
      (now : ℕ) (r : InstallSnapshotRequest) (n : Node DB FS)
      → r.term ≡ n.hard_state.current_term
      → (let k = accept_chunk w now r n in
          handle_install_snapshot_request w now r n ≡ some (k, respond_install k))
  unfolding handle_install_snapshot_request
  handled now r n same = ground (arith, same)

  -- Requests of the term of a node that carry a whole snapshot from its first byte on, in pieces of any
  -- size, are each handled and answered, and after the last of them the tree and the log of the node
  -- have loaded the snapshot.
  pub handle_all :
      (now offset : ℕ) (rs : List InstallSnapshotRequest) (n : Node DB FS) (snapshot : Snapshot)
      → Received n offset
      → Carries n.hard_state.current_term content offset rs
      → w.snapshot_codec.parse content ≡ some snapshot
      → (m : Node DB FS) × Handles now rs n m
        × (m.state_machine ≡ Defs.load_snapshot n.state_machine snapshot)
        × (m.logs ≡ LogDefs.load_snapshot n.logs snapshot)
  handle_all now offset [] n snapshot received c parses = absurd c
  handle_all now offset (r ∷ []) n snapshot received (term, at, piece, last, end) parses =
      let here = subst (Received n) (sym at) received in
      let part = subst (λ k. r.payload ≡ take (length r.payload) (drop k content)) (sym at) piece in
      let k = accept_chunk w now r n in
      let (tree, logs) =
        accept_chunk-last now r n snapshot here part last (omega (arith, at, end)) parses in
      (k, Handles.next r [] n k k (handled now r n term) (Handles.done k), tree, logs)
  handle_all now offset (r ∷ s ∷ rs) n snapshot received (term, at, piece, more, c) parses =
      let here = subst (Received n) (sym at) received in
      let part = subst (λ k. r.payload ≡ take (length r.payload) (drop k content)) (sym at) piece in
      let k = accept_chunk w now r n in
      let (bytes, tree, logs, state) = accept_chunk-more now r n here part more in
      let (m, run, tree_end, logs_end) =
        handle_all now (offset + length r.payload) (s ∷ rs) k snapshot
          (inr (bytes ∙ ap (λ o. take (o + length r.payload) content) at))
          (subst (λ h. Carries h.current_term content (offset + length r.payload) (s ∷ rs))
            (sym state) c)
          parses in
      (
        m,
        Handles.next r (s ∷ rs) n k m (handled now r n term) run,
        tree_end ∙ ap (λ x. Defs.load_snapshot x snapshot) tree,
        logs_end ∙ ap (λ x. LogDefs.load_snapshot x snapshot) logs,
      )
