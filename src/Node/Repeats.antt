-- ===== src/Node/Repeats.antt =====
-- A request that arrives twice, and the entries that a leader appends for its clients.
use vosfs.Common.{
  ℕ, suc, ◌+◌, ◌-◌, ◌≤◌, ◌<◌, ◌∷◌, ◌++◌, [], List, true, false, some, ◌≡◌, refl, sym, ap, subst,
  ◌∙◌, ltb, ◌==◌, arith, length, length-append, get_elem?, u64_mod, All, some-same, >>=-eq-some,
}
use mathlib.Core.List.{append_assoc}
use native.Mathlib.Nat.{add-zero}
use vosfs.Common.Result.{ok}
use vosfs.Api.{LogEntry, EntryCommand, PendingResponse}
use vosfs.Persister.Engine.{EngineLaws, CodecLaw}
use vosfs.Persister.Defs.{save_entries, load_entries}
use vosfs.Persister.Storage.{load_entries-IsStored}
use vosfs.RaftLog.Defs.{RaftLog, last_log_index, get_term, append_entries, append_entry}
use vosfs.RaftLog.Indices.{
  Consecutive, IsIndexed, last_log_index-eq, in_entries-true, arr_idx-eq, get_term-eq,
}
use vosfs.RaftLog.Changes.{append_entries-eq}
use vosfs.Node.Defs.{World, Node}
use vosfs.Node.Replication.{delete_conflicts, store_entries}
use vosfs.Node.Clients.{append_command}
use vosfs.Node.Appends.{IsPersisted}

-- The log has the entry's term at the entry's index.
abbrev Held : RaftLog → LogEntry → Type 0
Held l e = (get_term l e.index ≡ some e.term) × (e.index ≤ last_log_index l)

get_elem?-middle {ℓ} :
    {A : Type ℓ} (xs : List A) (y : A) (ys : List A) → get_elem? (xs ++ y ∷ ys) (length xs) ≡ some y
get_elem?-middle [] y ys = refl
get_elem?-middle (x ∷ xs) y ys = get_elem?-middle xs y ys

entry-Held :
    (l : RaftLog) (old es : List LogEntry) (e : LogEntry)
    → IsIndexed l
    → l.entries ≡ old ++ e ∷ es
    → e.index ≡ l.last_included_index + 1 + length old
    → Held l e
entry-Held l old es e v whole at =
    let size = last_log_index-eq l v in
    let count = ap length whole in
    let long = length-append old (e ∷ es) in
    let above : l.last_included_index < e.index = omega (arith, at) in
    let within : e.index ≤ last_log_index l = omega (arith, at, size, count, long) in
    let place : e.index - l.last_included_index - 1 ≡ length old = omega (arith, at) in
    (
      get_term-eq l e.index e above (in_entries-true l v e.index above within) (
          ap (get_elem? l.entries) (arr_idx-eq l v e.index above within ∙ place)
          ∙ ap (λ xs. get_elem? xs (length old)) whole
          ∙ get_elem?-middle old e es),
      within,
    )

entries-Held :
    (l : RaftLog) (old es : List LogEntry)
    → IsIndexed l
    → l.entries ≡ old ++ es
    → Consecutive (l.last_included_index + 1 + length old) es
    → All (Held l) es
entries-Held l old [] v whole c = tt
entries-Held l old (e ∷ es) v whole (at, c) =
    let next : l.last_included_index + 1 + length old + 1
        ≡ l.last_included_index + 1 + length (old ++ e ∷ []) =
      omega (arith, length-append old (e ∷ [])) in
    (
      entry-Held l old es e v whole at,
      entries-Held l (old ++ e ∷ []) es v (whole ∙ sym (append_assoc old (e ∷ []) es))
          (rw next at c),
    )

Consecutive-behind :
    (i : ℕ) (xs ys : List LogEntry) → Consecutive i (xs ++ ys) → Consecutive (i + length xs) ys
Consecutive-behind i [] ys c = rw (add-zero i) c
Consecutive-behind i (x ∷ xs) ys (_, c) =
    let next : i + 1 + length xs ≡ i + suc (length xs) = omega arith in
    rw next at (Consecutive-behind (i + 1) xs ys c)

repeated :
    (i : ℕ) (old es : List LogEntry) (e : LogEntry)
    → Consecutive i (old ++ e ∷ es)
    → Consecutive i ((old ++ e ∷ es) ++ e ∷ es)
    → ⊥
repeated i old es e c d =
    let (first, _) = Consecutive-behind i old (e ∷ es) c in
    let (second, _) = Consecutive-behind i (old ++ e ∷ es) (e ∷ es) d in
    omega (arith, first, second, length-append old (e ∷ es))

module _ {DB FS : Type 0} (w : World DB FS) where
  delete_conflicts-Held :
      (es : List LogEntry) (n : Node DB FS)
      → All (Held n.logs) es
      → delete_conflicts w es n ≡ some n
  unfolding delete_conflicts
  delete_conflicts-Held [] n held = refl
  delete_conflicts-Held (e ∷ es) n ((term, within), held) =
      let ih = delete_conflicts-Held es n held in
      let old : ltb (last_log_index n.logs) e.index ≡ false = ground (arith, within) in
      let same : (e.term == e.term) ≡ true = ground arith in rw (old, term, same) ih

  -- A request whose entries an indexed log ends with already, as a second copy of a request is:
  -- its entries are appended once more, and the indices of the log are no longer in order.
  pub store_entries-repeated :
      (old es : List LogEntry) (e : LogEntry) (n m : Node DB FS)
      → IsIndexed n.logs
      → n.logs.entries ≡ old ++ e ∷ es
      → store_entries w (e ∷ es) n ≡ some m
      → (m.logs.entries ≡ n.logs.entries ++ e ∷ es) × ¬ IsIndexed m.logs
  unfolding store_entries
  store_entries-repeated old es e n m v whole h =
      let c = subst (λ xs. Consecutive (n.logs.last_included_index + 1) xs) whole v.consecutive in
      let held = entries-Held n.logs old (e ∷ es) v whole (Consecutive-behind _ old (e ∷ es) c) in
      let same = delete_conflicts-Held (e ∷ es) n held in
      let (k, kept, rest) = >>=-eq-some (delete_conflicts w (e ∷ es) n) _ h in
      let (db, saved, end) =
        >>=-eq-some (save_entries w.engine w.entry_codec k.db (e ∷ es)) _ rest in
      let k_same : k ≡ n = some-same (sym kept ∙ same) in
      let logs : append_entries n.logs (e ∷ es) ≡ m.logs =
        ap (λ j. append_entries j.logs (e ∷ es)) (sym k_same) ∙ ap (λ j. j.logs) (some-same end) in
      let twice = sym (append_entries-eq n.logs (e ∷ es)) ∙ logs in
      let base = ap (λ l. l.last_included_index) twice in
      (
        sym (ap (λ l. l.entries) twice),
        λ x. repeated (n.logs.last_included_index + 1) old es e (c) (
            subst (λ xs. Consecutive (n.logs.last_included_index + 1) (xs ++ e ∷ es)) whole
              (subst (λ l. Consecutive (l.last_included_index + 1) l.entries) (sym twice)
                x.consecutive)),
      )

  -- The entry that a leader appends for a client is not in its database: where the database held
  -- exactly the log and no index reaches the last 64-bit number, a restart with more fuel than
  -- there are entries reads back the log without it.
  pub append_command-load_entries :
      (laws : EngineLaws w.engine) (law : CodecLaw w.entry_codec) (command : EntryCommand)
      (handle fuel : ℕ) (response : PendingResponse) (n : Node DB FS)
      → IsPersisted w n
      → n.logs.last_included_index + 1 + length n.logs.entries < u64_mod
      → length n.logs.entries < fuel
      → let m : Node DB FS = (append_command w command handle response n).0 in
        (load_entries w.engine w.entry_codec fuel m.db m.logs.last_included_index
          ≡ some (ok n.logs.entries))
        × (length m.logs.entries ≡ length n.logs.entries + 1)
  unfolding append_command append_entry
  append_command-load_entries laws law command handle fuel response n v fits enough = (
    load_entries-IsStored w.engine laws w.entry_codec law fuel n.logs.last_included_index n.db
        n.logs.entries v.stored fits enough,
    length-append n.logs.entries _,
  )
