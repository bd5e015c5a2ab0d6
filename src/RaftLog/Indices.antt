-- ===== src/RaftLog/Indices.antt =====
-- Reads of a log whose entries carry their own indices.
use native.Mathlib.Nat.{add-zero}
use vosfs.Common.{
  ℕ, zero, suc, ◌+◌, ◌-◌, ◌<◌, ◌≤◌, ◌≡◌, ◌≢◌, refl, ◌∷◌, ◌++◌, [], List, true, none, some, arith,
  u64_mod, length, get_elem?, get_last?, take, drop, min, ap, ◌∙◌, inl, inr, ◌⊎◌, Option-cases,
  drop-none, drop-some, length-take, length-drop,
}
use vosfs.Api.{LogEntry}
use vosfs.RaftLog.Defs.{
  RaftLog, last_log_index, last_log_term, in_entries, arr_idx, get_term, get_entry, collect,
  get_entries, get_entries_span,
}

-- The entries carry the indices `n`, `n + 1`, and so on.
abbrev pub Consecutive : ℕ → List LogEntry → Type 0
Consecutive n [] = Unit
Consecutive n (e ∷ es) = (e.index ≡ n) × Consecutive (n + 1) es

-- The entries continue the snapshot, and no index wraps around.
pub record IsIndexed (l : RaftLog) : Type 0 where
  pub consecutive : Consecutive (l.last_included_index + 1) l.entries
  pub fits : l.last_included_index + length l.entries < u64_mod

module _ (l : RaftLog) (v : IsIndexed l) where
  pub last_log_index-eq : last_log_index l ≡ l.last_included_index + length l.entries
  last_log_index-eq = omega (arith, v.fits)

  pub in_entries-true :
      (index : ℕ)
      → l.last_included_index < index
      → index ≤ last_log_index l
      → in_entries l index ≡ true
  in_entries-true index h k = ground arith

  pub arr_idx-eq :
      (index : ℕ)
      → l.last_included_index < index
      → index ≤ last_log_index l
      → arr_idx l index ≡ index - l.last_included_index - 1
  arr_idx-eq index h k = omega (arith, v.fits)

pub get_elem?-Consecutive :
    (n i : ℕ) (es : List LogEntry)
    → Consecutive n es
    → i < length es
    → (e : LogEntry) × (get_elem? es i ≡ some e) × (e.index ≡ n + i)
get_elem?-Consecutive n i [] c h = elim h [ ]
get_elem?-Consecutive n zero (e ∷ es) c h = (e, refl, omega arith)
get_elem?-Consecutive n (suc i) (e ∷ es) c h =
    let (x, found, at) = get_elem?-Consecutive (n + 1) i es c.1 (omega arith) in
    (x, found, omega arith)

entry_at :
    (l : RaftLog) (index : ℕ)
    → IsIndexed l
    → l.last_included_index < index
    → index ≤ last_log_index l
    → (e : LogEntry) × (get_elem? l.entries (index - l.last_included_index - 1) ≡ some e)
      × (e.index ≡ l.last_included_index + 1 + (index - l.last_included_index - 1))
entry_at l index v h k =
    get_elem?-Consecutive (l.last_included_index + 1) (index - l.last_included_index - 1) l.entries
      v.consecutive (omega (arith, last_log_index-eq l v))

pub get_term-eq :
    (l : RaftLog) (index : ℕ) (e : LogEntry)
    → l.last_included_index < index
    → in_entries l index ≡ true
    → get_elem? l.entries (arr_idx l index) ≡ some e
    → get_term l index ≡ some e.term
unfolding get_term
get_term-eq l index e h k found = ground arith

-- At every index behind the snapshot up to the last one, `get_entry` answers with the entry that
-- carries the index, and `get_term` with its term.
pub get_entry-index :
    (l : RaftLog) (index : ℕ)
    → IsIndexed l
    → l.last_included_index < index
    → index ≤ last_log_index l
    → (e : LogEntry) × (get_entry l index ≡ some e)
      × (e.index ≡ index)
      × (get_term l index ≡ some e.term)
unfolding get_entry
get_entry-index l index v h k =
    let (e, found, at) = entry_at l index v h k in
    (
      e,
      rw (in_entries-true l v index h k, arr_idx-eq l v index h k) found,
      omega arith,
      get_term-eq l index e h (in_entries-true l v index h k) (rw (arr_idx-eq l v index h k) found),
    )

-- `get_term` has a result exactly from the snapshot's index to the last one.
pub get_term-none :
    (l : RaftLog) (index : ℕ)
    → IsIndexed l
    → (index < l.last_included_index) ⊎ (last_log_index l < index)
    → get_term l index ≡ none
unfolding get_term
get_term-none l index v h = ground (arith, v.fits)

collect-take : (size : ℕ) (es : List LogEntry) (i : ℕ) → collect size es i ≡ take size (drop i es)
unfolding collect
collect-take zero es i = refl
collect-take (suc size) es i = elim (Option-cases (get_elem? es i)) [
  | inl e ↦ rw (drop-none es i e) (ground arith)
  | inr (x, e) ↦ rw (drop-some es i x e) (ground (arith, collect-take size es (suc i)))
]

pub Consecutive-drop :
    (i n : ℕ) (es : List LogEntry) → Consecutive n es → Consecutive (n + i) (drop i es)
Consecutive-drop zero n es c = rw (add-zero n) c
Consecutive-drop (suc i) n [] c = tt
Consecutive-drop (suc i) n (e ∷ es) c =
    let eq : n + suc i ≡ n + 1 + i = omega arith in rw eq (Consecutive-drop i (n + 1) es c.1)

pub Consecutive-take : (i n : ℕ) (es : List LogEntry) → Consecutive n es → Consecutive n (take i es)
Consecutive-take zero n es c = tt
Consecutive-take (suc i) n [] c = tt
Consecutive-take (suc i) n (e ∷ es) c = (c.0, Consecutive-take i (n + 1) es c.1)

pub Consecutive-append :
    (n : ℕ) (es fs : List LogEntry)
    → Consecutive n es
    → Consecutive (n + length es) fs
    → Consecutive n (es ++ fs)
Consecutive-append n [] fs c d = rw (add-zero n) at d
Consecutive-append n (e ∷ es) fs c d =
    let eq : n + suc (length es) ≡ n + 1 + length es = omega arith in
    (c.0, Consecutive-append (n + 1) es fs c.1 (rw eq at d))

-- `get_entries` at an index of the log answers with the entries from that index on: as many as there
-- are, `size` at most, each with its own index.
pub get_entries-index :
    (l : RaftLog) (index size : ℕ)
    → IsIndexed l
    → l.last_included_index < index
    → index ≤ last_log_index l
    → (es : List LogEntry) × (get_entries l index size ≡ some es)
      × (es ≡ take size (drop (index - l.last_included_index - 1) l.entries))
      × Consecutive index es
      × (length es ≡ min size (last_log_index l + 1 - index))
unfolding get_entries
get_entries-index l index size v h k =
    let i = index - l.last_included_index - 1 in
    let at : l.last_included_index + 1 + i ≡ index = omega arith in
    (
      take size (drop i l.entries),
      rw (in_entries-true l v index h k, arr_idx-eq l v index h k)
          (ap some (collect-take size l.entries i)),
      refl,
      Consecutive-take size index (drop i l.entries)
          (rw at at (Consecutive-drop i (l.last_included_index + 1) l.entries v.consecutive)),
      omega (
        arith,
        length-take size (drop i l.entries),
        length-drop i l.entries,
        last_log_index-eq l v,
      ),
    )

-- The span of `get_entries_span`, where it lies inside the log, is what `get_entries` answers.
pub get_entries_span-get_entries :
    (l : RaftLog) (index size : ℕ)
    → get_entries_span l index size ≢ none
    → get_entries_span l index size ≡ get_entries l index size
unfolding get_entries_span get_entries
get_entries_span-get_entries l index size h =
    ground (arith, collect-take size l.entries (arr_idx l index))

get_last?-get_elem? :
    (es : List LogEntry) (n : ℕ) → length es ≡ suc n → get_last? es ≡ get_elem? es n
get_last?-get_elem? [] n h = absurd (omega arith)
get_last?-get_elem? (e ∷ []) zero h = refl
get_last?-get_elem? (e ∷ []) (suc n) h = absurd (omega arith)
get_last?-get_elem? (e ∷ f ∷ es) zero h = absurd (omega arith)
get_last?-get_elem? (e ∷ f ∷ es) (suc n) h = get_last?-get_elem? (f ∷ es) n (omega arith)

List-cases {ℓ} : {A : Type ℓ} (xs : List A) → (xs ≡ []) ⊎ ((n : ℕ) × (length xs ≡ suc n))
List-cases [] = inl refl
List-cases (x ∷ xs) = inr (length xs, refl)

last_log_term-empty :
    (l : RaftLog)
    → l.entries ≡ []
    → l.last_included_index < u64_mod
    → (l.last_included_index ≢ 0) ⊎ (l.last_included_term ≡ 0)
    → get_term l (last_log_index l) ≡ some (last_log_term l)
unfolding get_term last_log_term
last_log_term-empty l none_left fits start = ground arith

last_log_term-back :
    (l : RaftLog) (n : ℕ)
    → IsIndexed l
    → length l.entries ≡ suc n
    → get_term l (last_log_index l) ≡ some (last_log_term l)
unfolding last_log_term
last_log_term-back l n v size =
    let last = last_log_index l in
    let behind : l.last_included_index < last = omega (arith, last_log_index-eq l v) in
    let within : last ≤ last = omega arith in
    let (e, found, at) = entry_at l last v behind within in
    let place : last - l.last_included_index - 1 ≡ n = omega (arith, last_log_index-eq l v) in
    get_term-eq l last e behind (in_entries-true l v last behind within)
      (rw (arr_idx-eq l v last behind within) found)
    ∙ rw (get_last?-get_elem? l.entries n size ∙ (rw place at found), last_log_term)

-- `last_log_term` is the term at `last_log_index`, if an empty log that starts at 0 has term 0.
pub last_log_term-get_term :
    (l : RaftLog)
    → IsIndexed l
    → (l.last_included_index ≢ 0) ⊎ (l.last_included_term ≡ 0)
    → get_term l (last_log_index l) ≡ some (last_log_term l)
last_log_term-get_term l v start = elim (List-cases l.entries) [
  | inl e ↦ last_log_term-empty l e (omega (arith, v.fits)) start
  | inr (n, e) ↦ last_log_term-back l n v e
]
