-- ===== src/StateMachine/Additions.antt =====
-- Where a lookup in a tree with one more node differs from the lookup before.
use vosfs.Common.{ℕ, ◌≡◌, ◌≢◌, none, some, Str, arith, str_discrete, ℕ_discrete}
use vosfs.Common.Map.{find, modify, find-emplace, find-modify, find-emplace_old, find-emplace_new}
use vosfs.Api.{Inode, DirEntry}
use vosfs.StateMachine.Defs.{StateMachine}
use vosfs.StateMachine.Mkdir.{add_child}
use vosfs.StateMachine.Consistency.{with_node}

module _ (s : StateMachine) (next parent_ino : ℕ) (inode : Inode) (entry : DirEntry) where
  pub with_node-entry_old :
      (p : Str) (e : DirEntry)
      → find str_discrete p s.dir_entries ≡ some e
      → find str_discrete p (with_node s next parent_ino inode entry).dir_entries ≡ some e
  with_node-entry_old p e h = find-emplace_old str_discrete entry.path p entry e s.dir_entries h

  pub with_node-entry_new :
      find str_discrete entry.path s.dir_entries ≡ none
      → find str_discrete entry.path (with_node s next parent_ino inode entry).dir_entries
        ≡ some entry
  with_node-entry_new h = find-emplace_new str_discrete entry.path entry s.dir_entries h

  pub with_node-entry_other :
      (p : Str)
      → p ≢ entry.path
      → find str_discrete p (with_node s next parent_ino inode entry).dir_entries
        ≡ find str_discrete p s.dir_entries
  with_node-entry_other p h =
      ground (arith, find-emplace str_discrete entry.path p entry s.dir_entries)

  pub with_node-inode_parent :
      (i : Inode)
      → find ℕ_discrete parent_ino s.inodes ≡ some i
      → find ℕ_discrete parent_ino (with_node s next parent_ino inode entry).inodes
        ≡ some (add_child entry i)
  with_node-inode_parent i h =
      find-emplace_old ℕ_discrete entry.ino parent_ino inode (add_child entry i) _
        (ground (arith, find-modify ℕ_discrete parent_ino parent_ino (add_child entry) s.inodes))

  pub with_node-inode_new :
      find ℕ_discrete entry.ino s.inodes ≡ none
      → find ℕ_discrete entry.ino (with_node s next parent_ino inode entry).inodes ≡ some inode
  with_node-inode_new h =
      find-emplace_new ℕ_discrete entry.ino inode _
        (ground (arith, find-modify ℕ_discrete parent_ino entry.ino (add_child entry) s.inodes))

  pub with_node-inode_other :
      (k : ℕ)
      → k ≢ entry.ino
      → k ≢ parent_ino
      → find ℕ_discrete k (with_node s next parent_ino inode entry).inodes
        ≡ find ℕ_discrete k s.inodes
  with_node-inode_other k h g = ground (
    arith,
    find-emplace ℕ_discrete entry.ino k inode
        (modify ℕ_discrete parent_ino (add_child entry) s.inodes),
    find-modify ℕ_discrete parent_ino k (add_child entry) s.inodes,
  )
