-- ===== src/StateMachine/Consistency.antt =====
-- The file tree is consistent: the two maps fit together, whatever operations ran.
use vosfs.Common.{
  ℕ, ◌<◌, ◌≤◌, ◌≡◌, ◌∷◌, ◌⊎◌, inl, inr, refl, [], none, some, Str, All, All-map, All-append, arith,
  str_discrete, ℕ_discrete,
}
use vosfs.Common.Map.{
  find, emplace, modify, find-modify, find-emplace_old, find-emplace_inv, find-emplace_new,
  find-modify_inv, find-modify-some, All-find, All-emplace, All-modify,
}
use vosfs.Api.{Inode, DirEntry}
use vosfs.StateMachine.Defs.{StateMachine, root_path, root_entry}
use vosfs.StateMachine.Mkdir.{add_child}

pub record IsConsistent (s : StateMachine) : Type 0 where
  -- the root is there
  pub root : find str_discrete root_path s.dir_entries ≡ some root_entry
  -- each map keeps a value under its own key
  pub inodes_keyed : All (λ p. p.1.ino ≡ p.0) s.inodes
  pub entries_keyed : All (λ p. p.1.path ≡ p.0) s.dir_entries
  -- each entry has an inode of its own kind
  pub linked :
      (p : Str) (e : DirEntry)
      → find str_discrete p s.dir_entries ≡ some e
      → (i : Inode) × (find ℕ_discrete e.ino s.inodes ≡ some i) × (i.is_dir ≡ e.is_dir)
  -- and shares it with no other
  pub single :
      (p q : Str) (e f : DirEntry)
      → find str_discrete p s.dir_entries ≡ some e
      → find str_discrete q s.dir_entries ≡ some f
      → e.ino ≡ f.ino
      → p ≡ q
  -- every number in use is below the next
  pub below_next : All (λ p. p.0 < s.next_ino) s.inodes
  -- what a directory lists is in the map of entries
  pub listed :
      (k : ℕ) (i : Inode)
      → find ℕ_discrete k s.inodes ≡ some i
      → All (λ e. find str_discrete e.path s.dir_entries ≡ some e) i.dir_entries

-- No inode that is found has the number `next_ino` or one above it.
pub fresh :
    {s : StateMachine} (v : IsConsistent s) (k : ℕ) (i : Inode)
    → find ℕ_discrete k s.inodes ≡ some i
    → k < s.next_ino
fresh {s} v k i h = All-find ℕ_discrete (λ p. p.0 < s.next_ino) k i s.inodes v.below_next h

-- A tree with one more inode and entry, listed by its parent.
abbrev pub with_node : StateMachine → ℕ → ℕ → Inode → DirEntry → StateMachine
with_node s next parent_ino inode entry = record s {
  next_ino = next;
  inodes =
      emplace ℕ_discrete entry.ino inode (modify ℕ_discrete parent_ino (add_child entry) s.inodes);
  dir_entries = emplace str_discrete entry.path entry s.dir_entries;
}

module _ (s : StateMachine) (next parent_ino : ℕ) (inode : Inode) (entry : DirEntry)
    (v : IsConsistent s) (new_ino : find ℕ_discrete entry.ino s.inodes ≡ none)
    (new_path : find str_discrete entry.path s.dir_entries ≡ none)
    (same_ino : inode.ino ≡ entry.ino) (same_kind : inode.is_dir ≡ entry.is_dir)
    (childless : inode.dir_entries ≡ []) (grows : s.next_ino ≤ next)
    (below : entry.ino < next) where
  -- An inode of the new tree is the new one, or an old one that may list one entry more.
  inode_cases :
      (k : ℕ) (i : Inode)
      → find ℕ_discrete k (with_node s next parent_ino inode entry).inodes ≡ some i
      → ((k ≡ entry.ino) × (i ≡ inode))
        ⊎ ((o : Inode) × (find ℕ_discrete k s.inodes ≡ some o)
            × ((i ≡ o) ⊎ (i ≡ add_child entry o)))
  inode_cases k i h =
      elim (find-emplace_inv ℕ_discrete entry.ino k inode i
        (modify ℕ_discrete parent_ino (add_child entry) s.inodes) h) [
          | inl old ↦ inr (find-modify_inv ℕ_discrete parent_ino k (add_child entry) i s.inodes old)
          | inr new ↦ inl new
        ]

  entry_cases :
      (p : Str) (e : DirEntry)
      → find str_discrete p (with_node s next parent_ino inode entry).dir_entries ≡ some e
      → (find str_discrete p s.dir_entries ≡ some e) ⊎ ((p ≡ entry.path) × (e ≡ entry))
  entry_cases p e h = find-emplace_inv str_discrete entry.path p entry e s.dir_entries h

  old_entry :
      (p : Str) (e : DirEntry)
      → find str_discrete p s.dir_entries ≡ some e
      → find str_discrete p (with_node s next parent_ino inode entry).dir_entries ≡ some e
  old_entry p e h = find-emplace_old str_discrete entry.path p entry e s.dir_entries h

  new_entry :
      find str_discrete entry.path (with_node s next parent_ino inode entry).dir_entries
      ≡ some entry
  new_entry = find-emplace_new str_discrete entry.path entry s.dir_entries new_path

  new_inode :
      find ℕ_discrete entry.ino (with_node s next parent_ino inode entry).inodes ≡ some inode
  new_inode =
      find-emplace_new ℕ_discrete entry.ino inode _
        (ground (arith, find-modify ℕ_discrete parent_ino entry.ino (add_child entry) s.inodes))

  old_inode :
      (k : ℕ) (i : Inode)
      → find ℕ_discrete k s.inodes ≡ some i
      → (o : Inode) × (find ℕ_discrete k (with_node s next parent_ino inode entry).inodes ≡ some o)
        × ((o ≡ i) ⊎ (o ≡ add_child entry i))
  old_inode k i h =
      let (o, found, same) =
        find-modify-some ℕ_discrete parent_ino k (add_child entry) i s.inodes h in
      (o, find-emplace_old ℕ_discrete entry.ino k inode o _ found, same)

  node_inodes_keyed : All (λ p. p.1.ino ≡ p.0) (with_node s next parent_ino inode entry).inodes
  node_inodes_keyed =
      All-emplace ℕ_discrete (λ p. p.1.ino ≡ p.0) entry.ino inode _ same_ino
        (All-modify ℕ_discrete (λ p. p.1.ino ≡ p.0) parent_ino (add_child entry) s.inodes
          (λ j i h. h) v.inodes_keyed)

  node_linked :
      (p : Str) (e : DirEntry)
      → find str_discrete p (with_node s next parent_ino inode entry).dir_entries ≡ some e
      → (i : Inode) × (find ℕ_discrete e.ino (with_node s next parent_ino inode entry).inodes
          ≡ some i)
        × (i.is_dir ≡ e.is_dir)
  node_linked p e h = elim (entry_cases p e h) [
    | inl old ↦
        (let (i, found, kind) = v.linked p e old in
          let (o, there, same) = old_inode e.ino i found in
          (o, there, elim same [ inl q ↦ cc | inr q ↦ cc ]))
    | inr (q, new) ↦ (inode, rw new new_inode, cc)
  ]

  -- No old entry has the number of the new inode.
  old_ino_ne :
      (p : Str) (e : DirEntry) → find str_discrete p s.dir_entries ≡ some e → ¬ (e.ino ≡ entry.ino)
  old_ino_ne p e h same = let (i, found, kind) = v.linked p e h in cc (found, new_ino, same)

  node_single :
      (p q : Str) (e f : DirEntry)
      → find str_discrete p (with_node s next parent_ino inode entry).dir_entries ≡ some e
      → find str_discrete q (with_node s next parent_ino inode entry).dir_entries ≡ some f
      → e.ino ≡ f.ino
      → p ≡ q
  node_single p q e f h k same = elim (entry_cases p e h) [
    | inl old ↦ elim (entry_cases q f k) [
      | inl older ↦ v.single p q e f old older same
      | inr (at, new) ↦ absurd (old_ino_ne p e old (cc))
    ]
    | inr (at, new) ↦ elim (entry_cases q f k) [
      | inl old ↦ absurd (old_ino_ne q f old (cc))
      | inr (at', new') ↦ cc
    ]
  ]

  node_below_next : All (λ p. p.0 < next) (with_node s next parent_ino inode entry).inodes
  node_below_next =
      All-emplace ℕ_discrete (λ p. p.0 < next) entry.ino inode _ below
        (All-modify ℕ_discrete (λ p. p.0 < next) parent_ino (add_child entry) s.inodes (λ j i h. h)
          (All-map (λ p. p.0 < s.next_ino) (λ p. p.0 < next) s.inodes (λ p h. omega arith)
            v.below_next))

  old_listed :
      (k : ℕ) (o : Inode)
      → find ℕ_discrete k s.inodes ≡ some o
      → All
          (λ e.
            find str_discrete e.path (with_node s next parent_ino inode entry).dir_entries ≡ some e)
          o.dir_entries
  old_listed k o found =
      All-map _ _ o.dir_entries (λ e h. old_entry e.path e h) (v.listed k o found)

  node_listed :
      (k : ℕ) (i : Inode)
      → find ℕ_discrete k (with_node s next parent_ino inode entry).inodes ≡ some i
      → All
          (λ e.
            find str_discrete e.path (with_node s next parent_ino inode entry).dir_entries ≡ some e)
          i.dir_entries
  node_listed k i h = elim (inode_cases k i h) [
    | inl (p, q) ↦ rw (q, childless) tt
    | inr (o, found, inl q) ↦ rw q (old_listed k o found)
    | inr (o, found, inr q) ↦
        rw q (All-append _ o.dir_entries (entry ∷ []) (old_listed k o found) (new_entry, tt))
  ]

  pub with_node-IsConsistent : IsConsistent (with_node s next parent_ino inode entry)
  with_node-IsConsistent = record {
    root = old_entry root_path root_entry v.root;
    inodes_keyed = node_inodes_keyed;
    entries_keyed =
        All-emplace str_discrete (λ p. p.1.path ≡ p.0) entry.path entry s.dir_entries refl
          v.entries_keyed;
    linked = node_linked;
    single = node_single;
    below_next = node_below_next;
    listed = node_listed;
  }
