-- ===== src/Node/Appends.antt =====
-- The log of a follower and what its database holds of it.
use vosfs.Common.{
  take-length, ℕ, ◌+◌, ◌-◌, ◌≤◌, ◌<◌, ◌∷◌, ◌++◌, List, false, some, ◌≡◌, ◌≢◌, refl, sym, ap, subst,
  ◌∙◌, ◌⊎◌, inl, inr, ltb, ◌==◌, arith, length, take, u64_mod, some-same, >>=-eq-some, ◌>>=◌,
}
use vosfs.Api.{LogEntry}
use vosfs.Persister.Engine.{EngineLaws, CodecLaw}
use vosfs.Persister.Defs.{save_entries, truncate_entries}
use vosfs.Persister.Storage.{IsStored, save_entries-IsStored, truncate_entries-IsStored}
use vosfs.RaftLog.Defs.{RaftLog, last_log_index, get_term, truncate_entries_before}
use vosfs.RaftLog.Indices.{Consecutive, IsIndexed, last_log_index-eq, in_entries-true, arr_idx-eq}
use vosfs.RaftLog.Changes.{
  append_entries-eq, append_entries-IsIndexed, truncate_entries_before-IsIndexed,
}
use vosfs.Node.Defs.{World, Node}
use vosfs.Node.Replication.{delete_conflicts, store_entries}

-- The log's entries have the indices behind the snapshot, and the database holds exactly them.
pub record IsPersisted {DB FS : Type 0} (w : World DB FS) (n : Node DB FS) : Type 0 where
  pub indexed : IsIndexed n.logs
  pub stored : IsStored w.engine w.entry_codec n.db (n.logs.last_included_index + 1) n.logs.entries

-- The new entry at the index continues the log, or has another term than the log's entry there.
abbrev pub IsNew : RaftLog → LogEntry → Type 0
IsNew l e =
    (last_log_index l + 1 ≡ e.index)
    ⊎ ((term : ℕ) × (get_term l e.index ≡ some term)
        × (term ≢ e.term)
        × (e.index ≤ last_log_index l))

module _ {DB FS : Type 0} (w : World DB FS) (laws : EngineLaws w.engine)
    (law : CodecLaw w.entry_codec) where
  cut-conflict :
      (e : LogEntry) (es : List LogEntry) (n k : Node DB FS) (term : ℕ)
      → get_term n.logs e.index ≡ some term
      → term ≢ e.term
      → e.index ≤ last_log_index n.logs
      → delete_conflicts w (e ∷ es) n ≡ some k
      → (truncate_entries w.engine w.entry_codec n.db e.index (last_log_index n.logs) >>= λ db.
          (truncate_entries_before n.logs e.index >>= λ logs.
          some (record n { db = db; logs = logs })))
        ≡ some k
  unfolding delete_conflicts
  cut-conflict e es n k term read other within h =
      let old : ltb (last_log_index n.logs) e.index ≡ false = ground (arith, within) in
      let differs : (term == e.term) ≡ false = ground (arith, other) in rw (old, read, differs) at h

  truncated :
      (l : RaftLog) (index : ℕ)
      → IsIndexed l
      → l.last_included_index < index
      → index ≤ last_log_index l
      → truncate_entries_before l index
        ≡ some (record l { entries = take (index - l.last_included_index - 1) l.entries })
  unfolding truncate_entries_before
  truncated l index v above within =
      rw (in_entries-true l v index above within, arr_idx-eq l v index above within)

  delete_conflicts-cut :
      (e : LogEntry) (es : List LogEntry) (n k : Node DB FS)
      → IsPersisted w n
      → n.logs.last_included_index < e.index
      → IsNew n.logs e
      → last_log_index n.logs + 1 < u64_mod
      → delete_conflicts w (e ∷ es) n ≡ some k
      → (k.logs.entries ≡ take (e.index - n.logs.last_included_index - 1) n.logs.entries)
        × (k.logs.last_included_index ≡ n.logs.last_included_index)
        × (last_log_index k.logs + 1 ≡ e.index)
        × IsPersisted w k
  unfolding delete_conflicts
  delete_conflicts-cut e es n k v above (inl next) fits h =
      let size = last_log_index-eq n.logs v.indexed in
      let whole : e.index - n.logs.last_included_index - 1 ≡ length n.logs.entries =
        omega (arith, size, next) in
      let same : n ≡ k = ground (arith, h, next) in
      subst
        (λ j.
          (j.logs.entries ≡ take (e.index - n.logs.last_included_index - 1) n.logs.entries)
          × (j.logs.last_included_index ≡ n.logs.last_included_index)
          × (last_log_index j.logs + 1 ≡ e.index)
          × IsPersisted w j)
        same
        (sym (ap (λ c. take c n.logs.entries) whole ∙ take-length n.logs.entries), refl, next, v)
  delete_conflicts-cut e es n k v above (inr (term, read, other, within)) fits h =
      let cut : (truncate_entries w.engine w.entry_codec n.db e.index (last_log_index n.logs)
            >>= λ db.
                (truncate_entries_before n.logs e.index >>= λ logs.
                some (record n { db = db; logs = logs })))
          ≡ some k =
        cut-conflict e es n k term read other within h in
      let (db, erased, rest) =
        >>=-eq-some (truncate_entries w.engine w.entry_codec n.db e.index (last_log_index n.logs)) _
          cut in
      let (t, shorter, end) = >>=-eq-some (truncate_entries_before n.logs e.index) _ rest in
      let (s, kept, indexed, last, _) =
        truncate_entries_before-IsIndexed n.logs e.index v.indexed above within in
      let c = e.index - n.logs.last_included_index - 1 in
      let cut_log = record (n.logs) { entries = take c n.logs.entries } in
      let now_cut = truncated n.logs e.index v.indexed above within in
      let s_same : s ≡ cut_log = some-same (sym kept ∙ now_cut) in
      let t_same : t ≡ cut_log = some-same (sym shorter ∙ now_cut) in
      let size = last_log_index-eq n.logs v.indexed in
      let start : n.logs.last_included_index + 1 + c ≡ e.index = omega (arith, above) in
      let stop : n.logs.last_included_index + 1 + length n.logs.entries - 1
          ≡ last_log_index n.logs =
        omega (arith, size) in
      let cleared : truncate_entries w.engine w.entry_codec n.db
            (n.logs.last_included_index + 1 + c)
            (n.logs.last_included_index + 1 + length n.logs.entries - 1)
          ≡ some db =
        rw (start, stop) erased in
      subst
        (λ j.
          (j.logs.entries ≡ take c n.logs.entries)
          × (j.logs.last_included_index ≡ n.logs.last_included_index)
          × (last_log_index j.logs + 1 ≡ e.index)
          × IsPersisted w j)
        (ap (λ l. record n { db = db; logs = l }) (sym t_same) ∙ some-same end)
        (
          refl,
          refl,
          subst (λ l. last_log_index l + 1 ≡ e.index) s_same last,
          record {
            indexed = subst (λ l. IsIndexed l) s_same indexed;
            stored =
                truncate_entries-IsStored w.engine laws w.entry_codec law n.db db
                  (n.logs.last_included_index + 1) c n.logs.entries v.stored (omega arith)
                  (omega (arith, size, within)) (omega (arith, size, fits)) cleared;
          },
        )

  -- A node whose database holds exactly its log stores a request whose entries have consecutive
  -- indices behind the snapshot, none of them past the last 64-bit number, and whose first entry
  -- continues the log or has another term than the log at its index. Then the log is the entries
  -- below that index and those of the request, and the database holds exactly the log.
  pub store_entries-IsPersisted :
      (e : LogEntry) (es : List LogEntry) (n m : Node DB FS)
      → IsPersisted w n
      → n.logs.last_included_index < e.index
      → IsNew n.logs e
      → Consecutive e.index (e ∷ es)
      → last_log_index n.logs + 1 < u64_mod
      → e.index + length es < u64_mod
      → store_entries w (e ∷ es) n ≡ some m
      → (m.logs.entries ≡ take (e.index - n.logs.last_included_index - 1) n.logs.entries ++ e ∷ es)
        × IsPersisted w m
  unfolding store_entries
  store_entries-IsPersisted e es n m v above new consecutive fits small h =
      let (k, cut, rest) = >>=-eq-some (delete_conflicts w (e ∷ es) n) _ h in
      let (db, saved, end) =
        >>=-eq-some (save_entries w.engine w.entry_codec k.db (e ∷ es)) _ rest in
      let (kept, base, last, persisted) = delete_conflicts-cut e es n k v above new fits cut in
      let appended = append_entries-eq k.logs (e ∷ es) in
      let size = last_log_index-eq k.logs persisted.indexed in
      let next : k.logs.last_included_index + 1 + length k.logs.entries ≡ e.index =
        omega (arith, size, last) in
      subst
        (λ j.
          (j.logs.entries
            ≡ take (e.index - n.logs.last_included_index - 1) n.logs.entries ++ e ∷ es)
          × IsPersisted w j)
        (some-same end)
        (
          ap (λ l. l.entries) appended ∙ ap (λ l. l ++ e ∷ es) kept,
          record {
            indexed =
                (append_entries-IsIndexed k.logs (e ∷ es) persisted.indexed (rw last consecutive)
                  (omega (arith, last, small))).0;
            stored = rw appended (
                save_entries-IsStored w.engine laws w.entry_codec law k.db db
                  (k.logs.last_included_index + 1) k.logs.entries (e ∷ es) persisted.stored
                  (rw next consecutive) saved);
          },
        )
