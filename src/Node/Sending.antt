-- ===== src/Node/Sending.antt =====
-- What a heartbeat carries to a member, and what its handler answers.
use vosfs.Common.{
  ℕ, zero, suc, sym, ◌∷◌, length-drop, ◌+◌, ◌-◌, ◌≤◌, ◌<◌, [], List, some, ◌≡◌, refl, ap, subst,
  ◌∙◌, leb, if◌then◌else◌, min, arith, length, take, drop, u64_mod, add64, sub64, if-true, if-false,
  dec_le,
}
use vosfs.Api.{LogEntry, AppendEntriesRequest}
use vosfs.RaftLog.Defs.{RaftLog, last_log_index, get_term, get_entries}
use vosfs.RaftLog.Indices.{
  Consecutive, IsIndexed, last_log_index-eq, get_entry-index, get_entries-index,
}
use vosfs.Node.Defs.{Node}
use vosfs.Node.Heartbeats.{append_request_to, max_append_entries_size}

get_term-included : (l : RaftLog) → get_term l l.last_included_index ≡ some l.last_included_term
unfolding get_term
get_term-included l = ground arith

get_term-held :
    (l : RaftLog) (index : ℕ)
    → IsIndexed l
    → l.last_included_index ≤ index
    → index ≤ last_log_index l
    → (term : ℕ) × (get_term l index ≡ some term)
get_term-held l index v from to = elim (dec_le index l.last_included_index) [
  | yes low ↦
      (let same : l.last_included_index ≡ index = omega (arith, from, low) in
        (
          l.last_included_term,
          subst (λ i. get_term l i ≡ some l.last_included_term) same (get_term-included l),
        ))
  | no high ↦
      (let (e, _, _, term) = get_entry-index l index v (omega (arith, high)) to in (e.term, term))
]

take-min {ℓ} : {A : Type ℓ} (m : ℕ) (xs : List A) → take (min m (length xs)) xs ≡ take m xs
take-min zero xs =
    let empty : min zero (length xs) ≡ zero = omega arith in ap (λ k. take k xs) empty
take-min (suc m) [] = let empty : min (suc m) zero ≡ zero = omega arith in ap (λ k. take k []) empty
take-min (suc m) (x ∷ xs) =
    let inner : min (suc m) (length (x ∷ xs)) ≡ suc (min m (length xs)) = omega arith in
    ap (λ k. take k (x ∷ xs)) inner ∙ ap (λ r. x ∷ r) (take-min m xs)

drop-past {ℓ} : {A : Type ℓ} (xs : List A) (i : ℕ) → length xs ≤ i → drop i xs ≡ []
drop-past [] zero h = refl
drop-past [] (suc i) h = refl
drop-past (x ∷ xs) zero h = absurd (omega arith)
drop-past (x ∷ xs) (suc i) h = drop-past xs i (omega arith)

-- The entries of a log from an index on, as many as one request carries.
abbrev pub sent_from : RaftLog → ℕ → List LogEntry
sent_from l index =
    take max_append_entries_size (drop (index - l.last_included_index - 1) l.entries)

entries_to :
    {DB FS : Type 0} (n : Node DB FS) (next_index : ℕ)
    → IsIndexed n.logs
    → n.logs.last_included_index < next_index
    → next_index ≤ last_log_index n.logs + 1
    → last_log_index n.logs + 1 < u64_mod
    → (es : List LogEntry) × ((if leb next_index (last_log_index n.logs)
          then get_entries n.logs next_index
              (min max_append_entries_size (add64 (sub64 (last_log_index n.logs) next_index) 1))
          else some [])
        ≡ some es)
      × (es ≡ sent_from n.logs next_index)
      × Consecutive next_index es
      × (length es ≡ min max_append_entries_size (last_log_index n.logs + 1 - next_index))
entries_to n next_index v above within fits = elim (dec_le next_index (last_log_index n.logs)) [
  | yes low ↦
      (let i = next_index - n.logs.last_included_index - 1 in
        let rest = drop i n.logs.entries in
        let size =
          min max_append_entries_size (add64 (sub64 (last_log_index n.logs) next_index) 1) in
        let (es, read, same, consecutive, count) =
          get_entries-index n.logs next_index size v above low in
        (
          es,
          if-true (leb next_index (last_log_index n.logs)) _ _ (ground (arith, low)) ∙ read,
          same
              ∙ ap (λ k. take k rest)
                  (omega
                    (arith, low, fits, last_log_index-eq n.logs v, length-drop i n.logs.entries))
              ∙ take-min max_append_entries_size rest,
          consecutive,
          omega (arith, count, low, fits),
        ))
  | no high ↦ (
    [],
    if-false (leb next_index (last_log_index n.logs)) _ _ (ground (arith, high)),
    sym (
        ap (take max_append_entries_size) (
          drop-past n.logs.entries (next_index - n.logs.last_included_index - 1)
            (omega (arith, high, last_log_index-eq n.logs v)))),
    tt,
    omega (arith, high, within),
  )
]

-- For a leader whose log is indexed and does not reach the last 64-bit number, and a member
-- whose next index is in the log or just behind it, the heartbeat carries exactly the entries of the
-- log from that index on, 64 at most, each with its own index, with the number, the term and the
-- commit index of the leader, the index before the entries and the term that the log has there.
pub append_request_to-entries :
    {DB FS : Type 0} (n : Node DB FS) (next_index : ℕ)
    → IsIndexed n.logs
    → n.logs.last_included_index < next_index
    → next_index ≤ last_log_index n.logs + 1
    → last_log_index n.logs + 1 < u64_mod
    → (r : AppendEntriesRequest) × (append_request_to n next_index ≡ some r)
      × (r.term ≡ n.hard_state.current_term)
      × (r.leader_id ≡ n.member_id)
      × (r.leader_commit ≡ n.commit_index)
      × (r.prev_log_index + 1 ≡ next_index)
      × (get_term n.logs r.prev_log_index ≡ some r.prev_log_term)
      × (r.entries ≡ sent_from n.logs next_index)
      × Consecutive next_index r.entries
      × (length r.entries ≡ min max_append_entries_size (last_log_index n.logs + 1 - next_index))
unfolding append_request_to
append_request_to-entries n next_index v above within fits =
    let (es, read, same, consecutive, count) = entries_to n next_index v above within fits in
    let before : sub64 next_index 1 ≡ next_index - 1 = omega (arith, above, within, fits) in
    let (term, held) =
      get_term-held n.logs (sub64 next_index 1) v (omega (arith, before, above))
        (omega (arith, before, above, within)) in
    (
      record {
        term = n.hard_state.current_term;
        leader_id = n.member_id;
        prev_log_index = sub64 next_index 1;
        prev_log_term = term;
        entries = es;
        leader_commit = n.commit_index;
      },
      rw (read, held) refl,
      refl,
      refl,
      refl,
      omega (arith, before, above),
      held,
      same,
      consecutive,
      count,
    )
