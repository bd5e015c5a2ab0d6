-- ===== src/RaftLog/Changes.antt =====
-- What the writes to the log keep, and what a snapshot does to it.
use vosfs.Common.{
  ℕ, ◌+◌, ◌-◌, ◌<◌, ◌≤◌, ◌≡◌, ◌≢◌, refl, ◌∷◌, ◌++◌, [], List, some, arith, u64_mod, length,
  get_elem?, take, ◌∙◌, length-append, length-take, get_elem?-take,
}
use mathlib.Core.List.{append_assoc, append-nil}
use vosfs.Api.{LogEntry, Snapshot}
use vosfs.RaftLog.Defs.{
  RaftLog, load_snapshot, last_log_index, append_entry, append_entries, truncate_entries_before,
}
use vosfs.RaftLog.Indices.{
  Consecutive, IsIndexed, last_log_index-eq, in_entries-true, arr_idx-eq, Consecutive-append,
  Consecutive-take,
}

-- The loop of `append_entries` appends the entries in their order.
pub append_entries-eq :
    (l : RaftLog) (es : List LogEntry)
    → append_entries l es ≡ record l { entries = l.entries ++ es }
unfolding append_entries append_entry
append_entries-eq l [] = rw append-nil
append_entries-eq l (e ∷ es) = append_entries-eq (append_entry l e) es ∙ rw append_assoc

-- Entries that continue the indices of an indexed log, none of them past the last 64-bit number,
-- keep it indexed and move its last index behind them.
pub append_entries-IsIndexed :
    (l : RaftLog) (es : List LogEntry)
    → IsIndexed l
    → Consecutive (last_log_index l + 1) es
    → last_log_index l + length es < u64_mod
    → IsIndexed (append_entries l es)
      × (last_log_index (append_entries l es) ≡ last_log_index l + length es)
append_entries-IsIndexed l es v c fits =
    let at : last_log_index l + 1 ≡ l.last_included_index + 1 + length l.entries =
      omega (arith, last_log_index-eq l v) in
    let more = length-append l.entries es in
    rw (append_entries-eq l es) (
      record {
        consecutive =
            Consecutive-append (l.last_included_index + 1) l.entries es v.consecutive (rw at at c);
        fits = omega (arith, more, last_log_index-eq l v);
      },
      omega (arith, more, v.fits, last_log_index-eq l v),
    )

-- Truncation at an index of the log leaves exactly the entries below it: the log stays indexed, ends
-- just below the index, and no entry below is touched.
pub truncate_entries_before-IsIndexed :
    (l : RaftLog) (index : ℕ)
    → IsIndexed l
    → l.last_included_index < index
    → index ≤ last_log_index l
    → (t : RaftLog) × (truncate_entries_before l index ≡ some t)
      × IsIndexed t
      × (last_log_index t + 1 ≡ index)
      × ((i : ℕ)
          → i < index - l.last_included_index - 1
          → get_elem? t.entries i ≡ get_elem? l.entries i)
unfolding truncate_entries_before
truncate_entries_before-IsIndexed l index v h k =
    let i = index - l.last_included_index - 1 in
    let kept = length-take i l.entries in
    (
      record l { entries = take i l.entries },
      rw (in_entries-true l v index h k, arr_idx-eq l v index h k),
      record {
        consecutive = Consecutive-take i (l.last_included_index + 1) l.entries v.consecutive;
        fits = omega (arith, kept, v.fits);
      },
      omega (arith, kept, v.fits, last_log_index-eq l v),
      λ j lt. get_elem?-take i j l.entries lt,
    )

-- `load_snapshot` moves the index of the snapshot and keeps every entry: a log with entries is no
-- longer indexed, and its last index moves with the snapshot's.
pub load_snapshot-IsIndexed :
    (l : RaftLog) (snapshot : Snapshot)
    → IsIndexed l
    → l.entries ≢ []
    → snapshot.last_included_index ≢ l.last_included_index
    → snapshot.last_included_index + length l.entries < u64_mod
    → ¬ IsIndexed (load_snapshot l snapshot)
      × (last_log_index (load_snapshot l snapshot) + l.last_included_index
          ≡ last_log_index l + snapshot.last_included_index)
unfolding load_snapshot
load_snapshot-IsIndexed l snapshot v some_entry moved fits =
    (λ w. shifted l.entries some_entry v.consecutive w.consecutive, omega (arith, v.fits))
  where
    shifted :
        (es : List LogEntry)
        → es ≢ []
        → Consecutive (l.last_included_index + 1) es
        → Consecutive (snapshot.last_included_index + 1) es
        → ⊥
    shifted [] h c d = h refl
    shifted (e ∷ es) h c d = moved (omega arith)
