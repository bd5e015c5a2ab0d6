-- ===== src/Client/Listing.antt =====
-- The list of a directory that the user interface shows.
use mathlib.Core.List.{Perm, perm_middle}
use mathlib.Core.List.Perm
use vosfs.Common.{
  ◌≡◌, refl, ◌∙◌, sym, ◌∷◌, [], ◌++◌, List, Bool, true, false, some, Str, arith, All, All-append,
  All-map, ◌⊎◌, inl, inr, Bool-cases, if-holds, subst,
}
use vosfs.Api.{DirEntry, ListDirResponse}
use vosfs.StateMachine.Defs.{status_ok}
use vosfs.Client.Defs.{Client, Desktop, Signal, RpcStatus, emit, log}
use vosfs.Client.Responses.{
  str_ltb, insert_entry, sort_entries, dirs_of, files_of, items_of, listed,
  handle_list_dir_response,
}

-- The order of names.
abbrev NotAfter : Str → Str → Type 0
NotAfter s t = str_ltb t s ≡ false

NotAfter-refl : (s : Str) → NotAfter s s
unfolding str_ltb
NotAfter-refl [] = refl
NotAfter-refl (b ∷ s) = ground (arith, NotAfter-refl s)

NotAfter-of_lt : (s t : Str) → str_ltb s t ≡ true → NotAfter s t
unfolding str_ltb
NotAfter-of_lt s [] h = absurd (cc)
NotAfter-of_lt [] (c ∷ t) h = refl
NotAfter-of_lt (b ∷ s) (c ∷ t) h = ground (arith, NotAfter-of_lt s t)

NotAfter-trans : (s t u : Str) → NotAfter s t → NotAfter t u → NotAfter s u
unfolding str_ltb
NotAfter-trans [] t u h k = ground arith
NotAfter-trans (b ∷ s) [] u h k = absurd (cc)
NotAfter-trans (b ∷ s) (c ∷ t) [] h k = absurd (cc)
NotAfter-trans (b ∷ s) (c ∷ t) (d ∷ u) h k = ground (arith, NotAfter-trans s t u)

-- An entry may stand before another: a directory before a file, and otherwise by name.
abbrev pub Before : DirEntry → DirEntry → Type 0
Before a b =
    ((a.is_dir ≡ true) × (b.is_dir ≡ false))
    ⊎ ((a.is_dir ≡ b.is_dir) × (str_ltb b.name a.name ≡ false))

-- Every entry may stand before all that follow it.
abbrev pub IsSorted : List DirEntry → Type 0
IsSorted [] = Unit
IsSorted (e ∷ es) = All (Before e) es × IsSorted es

abbrev Kind : Bool → DirEntry → Type 0
Kind k e = e.is_dir ≡ k

insert_entry-perm : (e : DirEntry) (es : List DirEntry) → Perm (insert_entry e es) (e ∷ es)
unfolding insert_entry
insert_entry-perm e [] = Perm.refl (e ∷ [])
insert_entry-perm e (d ∷ ds) = elim (Bool-cases (str_ltb d.name e.name)) [
  | inl before ↦ rw before (Perm.trans (Perm.cons d (insert_entry-perm e ds)) (Perm.swap e d ds))
  | inr after ↦ rw after (Perm.refl (e ∷ d ∷ ds))
]

insert_entry-All :
    (P : DirEntry → Type 0) (e : DirEntry) (es : List DirEntry)
    → P e
    → All P es
    → All P (insert_entry e es)
unfolding insert_entry
insert_entry-All P e [] h hs = (h, tt)
insert_entry-All P e (d ∷ ds) h hs = elim (Bool-cases (str_ltb d.name e.name)) [
  | inl before ↦ rw before (hs.0, insert_entry-All P e ds h hs.1)
  | inr after ↦ rw after (h, hs)
]

sort_entries-All : (P : DirEntry → Type 0) (es : List DirEntry) → All P es → All P (sort_entries es)
unfolding sort_entries
sort_entries-All P [] h = tt
sort_entries-All P (e ∷ es) h =
    insert_entry-All P e (sort_entries es) h.0 (sort_entries-All P es h.1)

sort_entries-perm : (es : List DirEntry) → Perm (sort_entries es) es
unfolding sort_entries
sort_entries-perm [] = Perm.refl []
sort_entries-perm (e ∷ es) =
    Perm.trans (insert_entry-perm e (sort_entries es)) (Perm.cons e (sort_entries-perm es))

Before-trans : (a b c : DirEntry) → Before a b → Before b c → Before a c
Before-trans a b c (inl h) (inl k) = inl (h.0, k.1)
Before-trans a b c (inl h) (inr k) = inl (h.0, sym k.0 ∙ h.1)
Before-trans a b c (inr h) (inl k) = inl (h.0 ∙ k.0, k.1)
Before-trans a b c (inr h) (inr k) = inr (h.0 ∙ k.0, NotAfter-trans a.name b.name c.name h.1 k.1)

-- Entries of one kind are inserted in their place.
insert_entry-IsSorted :
    (k : Bool) (e : DirEntry) (es : List DirEntry)
    → Kind k e
    → All (Kind k) es
    → IsSorted es
    → IsSorted (insert_entry e es)
unfolding insert_entry
insert_entry-IsSorted k e [] h hs sorted = (tt, tt)
insert_entry-IsSorted k e (d ∷ ds) h hs sorted = elim (Bool-cases (str_ltb d.name e.name)) [
  | inl before ↦ rw before (
    insert_entry-All (Before d) e ds (inr (hs.0 ∙ sym h, NotAfter-of_lt d.name e.name before))
        sorted.0,
    insert_entry-IsSorted k e ds h hs.1 sorted.1,
  )
  | inr after ↦
      (let first : Before e d = inr (h ∙ sym hs.0, after) in
        rw after (
          (first, All-map (Before d) (Before e) ds (λ c. Before-trans e d c first) sorted.0),
          sorted,
        ))
]

sort_entries-IsSorted :
    (k : Bool) (es : List DirEntry) → All (Kind k) es → IsSorted (sort_entries es)
unfolding sort_entries
sort_entries-IsSorted k [] h = tt
sort_entries-IsSorted k (e ∷ es) h =
    insert_entry-IsSorted k e (sort_entries es) h.0 (sort_entries-All (Kind k) es h.1)
      (sort_entries-IsSorted k es h.1)

dirs_of-Kind : (es : List DirEntry) → All (Kind true) (dirs_of es)
unfolding dirs_of
dirs_of-Kind [] = tt
dirs_of-Kind (e ∷ es) =
    if-holds (All (Kind true)) e.is_dir (e ∷ dirs_of es) (dirs_of es)
      (λ dir. (dir, dirs_of-Kind es)) (λ file. dirs_of-Kind es)

files_of-Kind : (es : List DirEntry) → All (Kind false) (files_of es)
unfolding files_of
files_of-Kind [] = tt
files_of-Kind (e ∷ es) =
    if-holds (All (Kind false)) e.is_dir (files_of es) (e ∷ files_of es) (λ dir. files_of-Kind es)
      (λ file. (file, files_of-Kind es))

dirs_of-files_of-perm : (es : List DirEntry) → Perm (dirs_of es ++ files_of es) es
unfolding dirs_of files_of
dirs_of-files_of-perm [] = Perm.refl []
dirs_of-files_of-perm (e ∷ es) = elim (Bool-cases e.is_dir) [
  | inl dir ↦ subst (λ l. Perm l (e ∷ es)) (ground arith) (Perm.cons e (dirs_of-files_of-perm es))
  | inr file ↦
      subst (λ l. Perm l (e ∷ es)) (ground arith)
        (Perm.trans (perm_middle (dirs_of es) (files_of es))
          (Perm.cons e (dirs_of-files_of-perm es)))
]

-- Directories before files.
append-IsSorted :
    (ds fs : List DirEntry)
    → All (Kind true) ds
    → All (Kind false) fs
    → IsSorted ds
    → IsSorted fs
    → IsSorted (ds ++ fs)
append-IsSorted [] fs h k sd sf = sf
append-IsSorted (d ∷ ds) fs h k sd sf = (
  All-append (Before d) ds fs sd.0
      (All-map (Kind false) (Before d) fs (λ f file. inl (h.0, file)) k),
  append-IsSorted ds fs h.1 k sd.1 sf,
)

abbrev shown : List DirEntry → List DirEntry
shown entries = sort_entries (dirs_of entries) ++ sort_entries (files_of entries)

shown-IsSorted : (entries : List DirEntry) → IsSorted (shown entries)
shown-IsSorted entries =
    append-IsSorted (sort_entries (dirs_of entries)) (sort_entries (files_of entries))
      (sort_entries-All (Kind true) (dirs_of entries) (dirs_of-Kind entries))
      (sort_entries-All (Kind false) (files_of entries) (files_of-Kind entries))
      (sort_entries-IsSorted true (dirs_of entries) (dirs_of-Kind entries))
      (sort_entries-IsSorted false (files_of entries) (files_of-Kind entries))

shown-perm : (entries : List DirEntry) → Perm (shown entries) entries
shown-perm entries =
    Perm.trans
      (Perm.append (sort_entries-perm (dirs_of entries)) (sort_entries-perm (files_of entries)))
      (dirs_of-files_of-perm entries)

module _ {FS : Type 0} (desktop : Desktop FS) where
  items_of-append :
      (ds fs : List DirEntry)
      → items_of desktop (ds ++ fs) ≡ items_of desktop ds ++ items_of desktop fs
  unfolding items_of
  items_of-append [] fs = refl
  items_of-append (a ∷ ds) fs = cc (items_of-append ds fs)

  -- The answer to a list of a directory that succeeds is shown, and its text goes to the log: every
  -- entry of the answer once, the directories before the files and each of the two by name, under
  -- the path of the answer. Nothing else of the client changes.
  pub handle_list_dir_response-shown :
      (status : RpcStatus) (response : ListDirResponse) (c : Client FS)
      → status.is_ok ≡ true
      → response.status_code ≡ status_ok
      → (entries : List DirEntry) × (handle_list_dir_response desktop status response c
          ≡ some (
              log response.message
                (emit (Signal.list_dir_finished response.path (items_of desktop entries)) c)))
        × Perm entries response.dir_entries
        × IsSorted entries
  unfolding handle_list_dir_response listed
  handle_list_dir_response-shown status response c is_ok ok =
      let es = response.dir_entries in
      (
        shown es,
        ground (arith, items_of-append (sort_entries (dirs_of es)) (sort_entries (files_of es))),
        shown-perm es,
        shown-IsSorted es,
      )
