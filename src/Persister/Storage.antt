-- ===== src/Persister/Storage.antt =====
-- What the database holds of the log, and what a restart reads back.
use vosfs.Common.{
  ℕ, zero, suc, ◌+◌, ◌-◌, ◌<◌, ◌≤◌, ◌≡◌, refl, sym, ◌∙◌, inl, inr, ◌∷◌, ◌++◌, [], List, some, arith,
  add64, u64_mod, length, get_elem?, take, length-append, length-take, get_elem?-take,
  get_elem?-append_left, get_elem?-append_right, get_elem?-some_lt, dec_lt,
}
use mathlib.Core.List.{append-nil, append_assoc}
use native.Mathlib.Nat.{add-zero}
use vosfs.Common.Result.{ok}
use vosfs.Api.{LogEntry}
use vosfs.Persister.Engine.{Engine, EngineLaws, Codec, CodecLaw, found, not_found}
use vosfs.Persister.Defs.{
  entry_key, put_ops, save_entries, truncate_entries, load_from, load_entries,
}
use vosfs.Persister.Entries.{after-put_outside, after-put_inside, delete_ops-Deletes}
use vosfs.RaftLog.Indices.{Consecutive}

-- The database holds the entries `es` at the indices from `n` on, and no entry behind them.
pub record IsStored {DB : Type 0} (engine : Engine DB) (codec : Codec LogEntry) (db : DB) (n : ℕ)
    (es : List LogEntry) : Type 0 where
  pub held :
      (i : ℕ) (e : LogEntry)
      → get_elem? es i ≡ some e
      → engine.get db (entry_key (n + i)) ≡ found (codec.serialize e)
  pub clear : (j : ℕ) → n + length es ≤ j → engine.get db (entry_key j) ≡ not_found

module _ {DB : Type 0} (engine : Engine DB) (laws : EngineLaws engine) (codec : Codec LogEntry)
    (law : CodecLaw codec) where
  load_from-eq :
      (fuel : ℕ) (db : DB) (n : ℕ) (es acc : List LogEntry)
      → ((i : ℕ) (e : LogEntry)
          → get_elem? es i ≡ some e
          → engine.get db (entry_key (n + i)) ≡ found (codec.serialize e))
      → engine.get db (entry_key (n + length es)) ≡ not_found
      → n + length es < u64_mod
      → length es < fuel
      → load_from engine codec fuel db n acc ≡ some (ok (acc ++ es))
  unfolding load_from
  load_from-eq zero db n es acc held clear fits h = absurd (omega arith)
  load_from-eq (suc fuel) db n [] acc held clear fits h =
      let here : engine.get db (entry_key n) ≡ not_found = rw add-zero at clear in
      rw (here, load_from, append-nil)
  load_from-eq (suc fuel) db n (e ∷ es) acc held clear fits h =
      let here : engine.get db (entry_key n) ≡ found (codec.serialize e) =
        rw add-zero at (held 0 e refl) in
      let next : add64 n 1 ≡ n + 1 = omega arith in
      let end : n + suc (length es) ≡ n + 1 + length es = omega arith in
      rw (here, load_from, law.parse-serialize e, next)
        (load_from-eq fuel db (n + 1) es (acc ++ e ∷ [])
            (λ i f k. (let at : n + 1 + i ≡ n + suc i = omega arith in rw at (held (suc i) f k)))
            (rw end at clear) (omega arith) (omega arith)
          ∙ rw append_assoc)

  -- With more fuel than there are entries, and indices below the last 64-bit number,
  -- load_entries reads back exactly the entries that the database holds behind the snapshot.
  pub load_entries-IsStored :
      (fuel last_included_index : ℕ) (db : DB) (es : List LogEntry)
      → IsStored engine codec db (last_included_index + 1) es
      → last_included_index + 1 + length es < u64_mod
      → length es < fuel
      → load_entries engine codec fuel db last_included_index ≡ some (ok es)
  unfolding load_entries
  load_entries-IsStored fuel last_included_index db es v fits h =
      let next : add64 last_included_index 1 ≡ last_included_index + 1 = omega arith in
      rw next (
        load_from-eq fuel db (last_included_index + 1) es [] v.held
          (v.clear (last_included_index + 1 + length es) (omega arith)) fits h)

  -- Entries that continue those of the database are stored behind them.
  pub save_entries-IsStored :
      (db after_db : DB) (n : ℕ) (es fs : List LogEntry)
      → IsStored engine codec db n es
      → Consecutive (n + length es) fs
      → save_entries engine codec db fs ≡ some after_db
      → IsStored engine codec after_db n (es ++ fs)
  unfolding save_entries
  save_entries-IsStored db after_db n es fs v c saved = record {
    held = λ i e found_at. elim (dec_lt i (length es)) [
      | yes old ↦
          laws.get-batch_write db after_db (put_ops codec fs) (entry_key (n + i)) saved
          ∙ after-put_outside codec (n + length es) (n + i) fs _ c (inl (omega arith))
          ∙ v.held i e (sym (get_elem?-append_left es fs i old) ∙ found_at)
      | no new ↦
          (let at : n + i ≡ n + length es + (i - length es) = omega arith in
            laws.get-batch_write db after_db (put_ops codec fs) (entry_key (n + i)) saved
            ∙ rw at (
                after-put_inside codec (n + length es) (i - length es) fs e _ c
                  (sym (get_elem?-append_right es fs i (omega arith)) ∙ found_at)))
    ];
    clear = λ j past.
        laws.get-batch_write db after_db (put_ops codec fs) (entry_key j) saved
        ∙ after-put_outside codec (n + length es) j fs _ c
            (inr (omega (arith, length-append es fs)))
        ∙ v.clear j (omega (arith, length-append es fs));
  }

  -- A truncation from an index up to the last stored one leaves the entries below the index, if
  -- no index is 0 or reaches the last 64-bit number.
  pub truncate_entries-IsStored :
      (db after_db : DB) (n kept : ℕ) (es : List LogEntry)
      → IsStored engine codec db n es
      → 0 < n
      → kept ≤ length es
      → n + length es < u64_mod
      → truncate_entries engine codec db (n + kept) (n + length es - 1) ≡ some after_db
      → IsStored engine codec after_db n (take kept es)
  unfolding truncate_entries
  truncate_entries-IsStored db after_db n kept es v start within fits done =
      let last : n + length es - 1 + 1 ≡ n + length es = omega arith in
      let (ops, batch, deletes, keeps) =
        delete_ops-Deletes (suc (n + length es - 1 + 1 - (n + kept))) (n + kept) (n + length es - 1)
          (omega arith) (omega arith) (omega arith) in
      let written : engine.batch_write db ops ≡ some after_db = rw batch at done in
      record {
        held = λ i e found_at.
            let small : i < kept =
              omega (arith, get_elem?-some_lt (take kept es) i e found_at, length-take kept es) in
            laws.get-batch_write db after_db ops (entry_key (n + i)) written
            ∙ deletes (n + i) (engine.get db (entry_key (n + i)))
            ∙ ground (arith, v.held i e (sym (get_elem?-take kept i es small) ∙ found_at));
        clear = λ j past.
            let behind : n + kept ≤ j = omega (arith, length-take kept es) in
            laws.get-batch_write db after_db ops (entry_key j) written
            ∙ deletes j (engine.get db (entry_key j))
            ∙ ground (arith, v.clear j);
      }
