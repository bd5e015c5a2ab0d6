-- ===== src/StateMachine/Snapshots.antt =====
-- A tree that goes through a snapshot.
use vosfs.Common.{
  ℕ, ◌+◌, ◌<◌, ◌≤◌, ◌≡◌, refl, sym, ap, ◌∙◌, ◌∷◌, [], List, Option, none, some, Str, All, All-map,
  All-zip, arith, max, u64_mod, str_discrete, ℕ_discrete,
}
use vosfs.Common.Map.{Map, find, emplace, values, find-emplace, All-emplace}
use vosfs.Api.{Inode, DirEntry, default_snapshot}
use vosfs.StateMachine.Defs.{
  StateMachine, root_path, root_entry, max_ino, add_inodes, add_dir_entries, with_root,
  load_snapshot, take_snapshot,
}
use vosfs.StateMachine.Consistency.{IsConsistent, fresh}

-- The first of two results.
abbrev first {ℓ} : {A : Type ℓ} → Option A → Option A → Option A
first none o = o
first (some a) o = some a

find-add_inodes :
    (k : ℕ) (m acc : Map ℕ Inode)
    → All (λ p. p.1.ino ≡ p.0) m
    → find ℕ_discrete k (add_inodes (values m) acc)
      ≡ first (find ℕ_discrete k acc) (find ℕ_discrete k m)
unfolding add_inodes find
find-add_inodes k [] acc h = ground arith
find-add_inodes k ((j, i) ∷ m) acc h = ground (
  arith,
  h.0,
  find-add_inodes k m (emplace ℕ_discrete i.ino i acc) h.1,
  find-emplace ℕ_discrete i.ino k i acc,
)

find-add_dir_entries :
    (p : Str) (m acc : Map Str DirEntry)
    → All (λ e. e.1.path ≡ e.0) m
    → find str_discrete p (add_dir_entries (values m) acc)
      ≡ first (find str_discrete p acc) (find str_discrete p m)
unfolding add_dir_entries find
find-add_dir_entries p [] acc h = ground arith
find-add_dir_entries p ((q, e) ∷ m) acc h = ground (
  arith,
  h.0,
  find-add_dir_entries p m (emplace str_discrete e.path e acc) h.1,
  find-emplace str_discrete e.path p e acc,
)

All-values {ℓ} :
    {K V : Type ℓ} (Q : V → Type ℓ) (m : Map K V) → All (λ p. Q p.1) m → All Q (values m)
All-values Q [] h = tt
All-values Q ((k, v) ∷ m) h = (h.0, All-values Q m h.1)

All-add_inodes :
    (P : ℕ × Inode → Type 0) (is : List Inode) (acc : Map ℕ Inode)
    → All (λ i. P (i.ino, i)) is
    → All P acc
    → All P (add_inodes is acc)
unfolding add_inodes
All-add_inodes P [] acc h k = k
All-add_inodes P (i ∷ is) acc h k =
    All-add_inodes P is (emplace ℕ_discrete i.ino i acc) h.1
      (All-emplace ℕ_discrete P i.ino i acc h.0 k)

All-add_dir_entries :
    (P : Str × DirEntry → Type 0) (es : List DirEntry) (acc : Map Str DirEntry)
    → All (λ e. P (e.path, e)) es
    → All P acc
    → All P (add_dir_entries es acc)
unfolding add_dir_entries
All-add_dir_entries P [] acc h k = k
All-add_dir_entries P (e ∷ es) acc h k =
    All-add_dir_entries P es (emplace str_discrete e.path e acc) h.1
      (All-emplace str_discrete P e.path e acc h.0 k)

everywhere {ℓ κ} : {A : Type ℓ} (P : A → Type κ) (xs : List A) → ((a : A) → P a) → All P xs
everywhere P [] f = tt
everywhere P (x ∷ xs) f = (f x, everywhere P xs f)

max_ino-lt : (n : ℕ) (is : List Inode) → 0 < n → All (λ i. i.ino < n) is → max_ino is < n
unfolding max_ino
max_ino-lt n [] h a = h
max_ino-lt n (i ∷ is) h a = omega (arith, max_ino-lt n is h a.1)

keys-le-max_ino :
    (m : Map ℕ Inode) → All (λ p. p.1.ino ≡ p.0) m → All (λ p. p.0 ≤ max_ino (values m)) m
unfolding max_ino
keys-le-max_ino [] h = tt
keys-le-max_ino ((k, i) ∷ m) h = (
  omega (arith, h.0),
  All-map (λ p. p.0 ≤ max_ino (values m)) (λ p. p.0 ≤ max i.ino (max_ino (values m))) m
      (λ p q. omega arith) (keys-le-max_ino m h.1),
)

with_root-full :
    (is : Map ℕ Inode) (es : Map Str DirEntry) (e : DirEntry)
    → find str_discrete root_path es ≡ some e
    → with_root is es ≡ (is, es)
unfolding find
with_root-full [] [] e h = absurd (cc)
with_root-full [] (x ∷ es) e h = refl
with_root-full (i ∷ is) es e h = refl

module _ (s r : StateMachine) (v : IsConsistent s) (fits : s.next_ino < u64_mod)
    (index term : ℕ) where
  abbrev inodes : Map ℕ Inode
  inodes = add_inodes (values s.inodes) []

  abbrev entries : Map Str DirEntry
  entries = add_dir_entries (values s.dir_entries) []

  abbrev restored : StateMachine
  restored = load_snapshot r (
      take_snapshot s
        (record default_snapshot { last_included_index = index; last_included_term = term }))

  same_inode : (k : ℕ) → find ℕ_discrete k inodes ≡ find ℕ_discrete k s.inodes
  unfolding find
  same_inode k = find-add_inodes k s.inodes [] v.inodes_keyed

  same_entry : (p : Str) → find str_discrete p entries ≡ find str_discrete p s.dir_entries
  unfolding find
  same_entry p = find-add_dir_entries p s.dir_entries [] v.entries_keyed

  restored_inodes : restored.inodes ≡ inodes
  unfolding load_snapshot take_snapshot
  restored_inodes =
      ap (λ (t : Map ℕ Inode × Map Str DirEntry). t.0)
        (with_root-full inodes entries _ (same_entry root_path ∙ v.root))

  restored_entries : restored.dir_entries ≡ entries
  unfolding load_snapshot take_snapshot
  restored_entries =
      ap (λ (t : Map ℕ Inode × Map Str DirEntry). t.1)
        (with_root-full inodes entries _ (same_entry root_path ∙ v.root))

  next_pos : 0 < s.next_ino
  next_pos =
      let (i, found, kind) = v.linked root_path root_entry v.root in
      omega (arith, fresh v root_entry.ino i found)

  restored_keyed : All (λ p. p.1.ino ≡ p.0) inodes
  restored_keyed =
      All-add_inodes (λ p. p.1.ino ≡ p.0) (values s.inodes) []
        (everywhere (λ i. i.ino ≡ i.ino) (values s.inodes) (λ i. refl)) tt

  small : All (λ i. i.ino < s.next_ino) (values s.inodes)
  small =
      All-values (λ i. i.ino < s.next_ino) s.inodes
        (All-zip (λ p. p.1.ino ≡ p.0) (λ p. p.0 < s.next_ino) (λ p. p.1.ino < s.next_ino) s.inodes
          (λ p h k. omega arith) v.inodes_keyed v.below_next)

  max_ino-inodes : max_ino (values inodes) < s.next_ino
  max_ino-inodes = max_ino-lt s.next_ino (values inodes) next_pos (
      All-values (λ i. i.ino < s.next_ino) inodes
        (All-add_inodes (λ p. p.1.ino < s.next_ino) (values s.inodes) [] small tt))

  restored_next : restored.next_ino ≡ max_ino (values inodes) + 1
  unfolding load_snapshot take_snapshot
  restored_next =
      rw (with_root-full inodes entries root_entry (same_entry root_path ∙ v.root))
        (omega (arith, max_ino-inodes))

  -- A snapshot that is taken of a consistent tree and loaded, on this machine or on another, has
  -- every inode and every entry of the tree, is consistent, and gives out no higher number next.
  pub load_snapshot-take_snapshot :
      ((k : ℕ) → find ℕ_discrete k restored.inodes ≡ find ℕ_discrete k s.inodes)
      × ((p : Str) → find str_discrete p restored.dir_entries ≡ find str_discrete p s.dir_entries)
      × IsConsistent restored
      × (restored.next_ino ≤ s.next_ino)
  load_snapshot-take_snapshot = (
    λ k. rw restored_inodes (same_inode k),
    λ p. rw restored_entries (same_entry p),
    record {
      root = rw (restored_entries, same_entry root_path) v.root;
      inodes_keyed = rw restored_inodes restored_keyed;
      entries_keyed = rw restored_entries (
          All-add_dir_entries (λ p. p.1.path ≡ p.0) (values s.dir_entries) []
            (everywhere (λ e. e.path ≡ e.path) (values s.dir_entries) (λ e. refl)) tt);
      linked = λ p e h.
          let (i, found, kind) = v.linked p e (sym (same_entry p) ∙ (rw restored_entries at h)) in
          (i, rw restored_inodes (same_inode e.ino ∙ found), kind);
      single = λ p q e f h k same.
          v.single p q e f (sym (same_entry p) ∙ (rw restored_entries at h))
            (sym (same_entry q) ∙ (rw restored_entries at k)) same;
      below_next =
          rw (restored_inodes, restored_next)
            (All-map (λ p. p.0 ≤ max_ino (values inodes)) (λ p. p.0 < max_ino (values inodes) + 1)
              inodes (λ p h. omega arith) (keys-le-max_ino inodes restored_keyed));
      listed = λ k i h.
          All-map _ _ i.dir_entries (λ e found. rw (restored_entries, same_entry e.path) found)
            (v.listed k i (sym (same_inode k) ∙ (rw restored_inodes at h)));
    },
    omega (arith, restored_next, max_ino-inodes),
  )
