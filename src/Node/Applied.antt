-- ===== src/Node/Applied.antt =====
-- `RaftNode::apply_entry`: what the loop keeps, and how far it goes.
use vosfs.Common.{
  ℕ, zero, suc, ◌+◌, ◌-◌, ◌≤◌, ◌<◌, List, some, ◌≡◌, refl, ap, ◌∙◌, arith, add64, add64_small,
  subst, u64_mod, some-same, >>=-eq-some,
}
use vosfs.Api.{LogEntry}
use vosfs.StateMachine.Apply.{Resumed}
use vosfs.RaftLog.Defs.{get_entry}
use vosfs.Node.Defs.{World, Node}
use vosfs.Node.Applying.{
  apply_to_state_machine, save_every_tenth, apply_next, apply_rounds, apply_committed,
}

-- What applying entries leaves alone.
abbrev pub Kept : {DB FS : Type 0} → Node DB FS → Node DB FS → Type 0
Kept n m =
    (m.commit_index ≡ n.commit_index)
    × (m.match_index ≡ n.match_index)
    × (m.hard_state ≡ n.hard_state)
    × (m.role ≡ n.role)
    × (m.db ≡ n.db)

module _ {DB FS : Type 0} (w : World DB FS) where
  apply_to_state_machine-Kept :
      (current_ms : ℕ) (entry : LogEntry) (n : Node DB FS)
      → Kept n (apply_to_state_machine w current_ms entry n).0
        × ((apply_to_state_machine w current_ms entry n).0.last_applied ≡ n.last_applied)
        × ((apply_to_state_machine w current_ms entry n).0.logs ≡ n.logs)
  unfolding apply_to_state_machine
  apply_to_state_machine-Kept current_ms entry n = ground arith

  save_every_tenth-Kept :
      (n m : Node DB FS)
      → save_every_tenth w n ≡ some m
      → Kept n m × (m.last_applied ≡ n.last_applied)
  unfolding save_every_tenth
  save_every_tenth-Kept n m h = ground arith

  Kept-trans : (a b c : Node DB FS) → Kept a b → Kept b c → Kept a c
  Kept-trans a b c (p0, p1, p2, p3, p4) (q0, q1, q2, q3, q4) =
      (q0 ∙ p0, q1 ∙ p1, q2 ∙ p2, q3 ∙ p3, q4 ∙ p4)

  apply_next-Kept :
      (current_ms : ℕ) (n m : Node DB FS) (resumed : List Resumed)
      → apply_next w current_ms n ≡ some (m, resumed)
      → Kept n m × (m.last_applied ≡ add64 n.last_applied 1)
  unfolding apply_next
  apply_next-Kept current_ms n m resumed h =
      let (entry, got, rest) = >>=-eq-some (get_entry n.logs (add64 n.last_applied 1)) _ h in
      let given = record n { last_applied = add64 n.last_applied 1 } in
      let applied = (apply_to_state_machine w current_ms entry given).0 in
      let (saved, save, last) = >>=-eq-some (save_every_tenth w applied) _ rest in
      let (kept, at, _) = apply_to_state_machine-Kept current_ms entry given in
      let (more, still) = save_every_tenth-Kept applied saved save in
      subst (λ k. Kept n k × (k.last_applied ≡ add64 n.last_applied 1))
        (ap (λ p. p.0) (some-same last)) (Kept-trans n applied saved kept more, still ∙ at)

  apply_rounds-Kept :
      (rounds current_ms : ℕ) (n m : Node DB FS) (resumed : List Resumed)
      → apply_rounds w rounds current_ms n ≡ some (m, resumed)
      → Kept n m
  unfolding apply_rounds
  apply_rounds-Kept zero current_ms n m resumed h =
      subst (λ k. Kept n k) (ap (λ p. p.0) (some-same h)) (refl, refl, refl, refl, refl)
  apply_rounds-Kept (suc rounds) current_ms n m resumed h =
      let ((next, first), one, rest) = >>=-eq-some (apply_next w current_ms n) _ h in
      let ((last, more), others, end) =
        >>=-eq-some (apply_rounds w rounds current_ms next) _ rest in
      subst (λ k. Kept n k) (ap (λ p. p.0) (some-same end))
        (Kept-trans n next last (apply_next-Kept current_ms n next first one).0
          (apply_rounds-Kept rounds current_ms next last more others))

  apply_rounds-last_applied :
      (rounds current_ms : ℕ) (n m : Node DB FS) (resumed : List Resumed)
      → apply_rounds w rounds current_ms n ≡ some (m, resumed)
      → n.last_applied + rounds < u64_mod
      → m.last_applied ≡ n.last_applied + rounds
  unfolding apply_rounds
  apply_rounds-last_applied zero current_ms n m resumed h fits =
      let same = ap (λ p. p.0.last_applied) (some-same h) in ground (arith, same)
  apply_rounds-last_applied (suc rounds) current_ms n m resumed h fits =
      let ((next, first), one, rest) = >>=-eq-some (apply_next w current_ms n) _ h in
      let ((last, more), others, end) =
        >>=-eq-some (apply_rounds w rounds current_ms next) _ rest in
      let applied = (apply_next-Kept current_ms n next first one).1 in
      let step : add64 n.last_applied 1 ≡ n.last_applied + 1 =
        add64_small n.last_applied 1 (omega arith) in
      let ih =
        apply_rounds-last_applied rounds current_ms next last more others
          (ground (arith, applied, step, fits)) in
      let same = ap (λ p. p.0.last_applied) (some-same end) in
      ground (arith, same, ih, applied, step)

  pub apply_committed-Kept :
      (current_ms : ℕ) (n m : Node DB FS) (resumed : List Resumed)
      → apply_committed w current_ms n ≡ some (m, resumed)
      → Kept n m
  unfolding apply_committed
  apply_committed-Kept current_ms n m resumed h = apply_rounds-Kept _ current_ms n m resumed h

  -- Where the last applied entry is not past the commit index, the loop that applies entries, if
  -- it ends without an abort, ends at the commit index, and keeps the hard state, the role, the
  -- commit index, the match indices and the database.
  pub apply_committed-last_applied :
      (current_ms : ℕ) (n m : Node DB FS) (resumed : List Resumed)
      → apply_committed w current_ms n ≡ some (m, resumed)
      → n.last_applied ≤ n.commit_index
      → n.commit_index < u64_mod
      → (m.last_applied ≡ m.commit_index) × Kept n m
  unfolding apply_committed
  apply_committed-last_applied current_ms n m resumed h behind fits =
      let kept = apply_committed-Kept current_ms n m resumed h in
      let reached =
        apply_rounds-last_applied (n.commit_index - n.last_applied) current_ms n m resumed h
          (omega arith) in
      let commit = kept.0 in (ground (arith, reached, commit, behind), kept)
