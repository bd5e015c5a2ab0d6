-- ===== src/StateMachine/Listing.antt =====
-- What clients see in the tree after a directory was made.
use vosfs.Common.{
  ℕ, ◌≡◌, ◌≢◌, refl, add64, ◌++◌, [], ◌∷◌, true, none, some, Str, List, utf8, arith, inl, inr,
  str_discrete, ℕ_discrete, Option-cases,
}
use vosfs.Common.Map.{find}
use vosfs.Api.{DirEntry, Inode, ListDirRequest, ListDirResponse, MakeDirRequest, MakeDirResponse}
use vosfs.StateMachine.Defs.{StateMachine, status_ok}
use vosfs.StateMachine.Mkdir.{
  CanMake, child_path, add_child, add_dir, made, mkdir_reply, mkdir_reply_cases, new_dir_entry,
  new_dir_inode,
}
use vosfs.StateMachine.Queries.{ls}
use vosfs.StateMachine.Consistency.{IsConsistent, fresh}
use vosfs.StateMachine.Additions.{
  with_node-entry_old, with_node-entry_new, with_node-entry_other, with_node-inode_parent,
  with_node-inode_new, with_node-inode_other,
}

-- The response of `ls` on a directory that lists `children`.
abbrev pub listing : ListDirRequest → ListDirResponse → List DirEntry → ListDirResponse
listing request response children = record response {
  status_code = status_ok;
  message = utf8 "显示目录：" ++ request.path;
  path = request.path;
  dir_entries = children;
}

ls_found :
    (s : StateMachine) (request : ListDirRequest) (response : ListDirResponse) (e : DirEntry)
    (i : Inode)
    → find str_discrete request.path s.dir_entries ≡ some e
    → e.is_dir ≡ true
    → find ℕ_discrete e.ino s.inodes ≡ some i
    → ls s request response ≡ listing request response i.dir_entries
unfolding ls
ls_found s request response e i h d f = ground arith

-- `ls` reads the tree at two places only.
ls_same :
    (s t : StateMachine) (request : ListDirRequest) (response : ListDirResponse)
    → find str_discrete request.path t.dir_entries ≡ find str_discrete request.path s.dir_entries
    → ((e : DirEntry)
        → find str_discrete request.path s.dir_entries ≡ some e
        → find ℕ_discrete e.ino t.inodes ≡ find ℕ_discrete e.ino s.inodes)
    → ls t request response ≡ ls s request response
unfolding ls
ls_same s t request response h k =
    elim (Option-cases (find str_discrete request.path s.dir_entries)) [
      | inl e ↦ ground arith
      | inr (e, f) ↦ ground (arith, k e f)
    ]

module _ (s : StateMachine) (request : MakeDirRequest) (parent : DirEntry) (parent_inode : Inode)
    (v : IsConsistent s) (can : CanMake s request parent parent_inode) (response : ListDirResponse)
    (asked : ListDirRequest) where
  abbrev path : Str
  path = child_path request.parent_path request.name

  abbrev entry : DirEntry
  entry = new_dir_entry s.next_ino request.name path request.timestamp

  next_ne : (k : ℕ) (i : Inode) → find ℕ_discrete k s.inodes ≡ some i → k ≢ s.next_ino
  next_ne k i h e = omega (arith, fresh v k i h)

  next_is_new : find ℕ_discrete s.next_ino s.inodes ≡ none
  next_is_new = elim (Option-cases (find ℕ_discrete s.next_ino s.inodes)) [
    | inl e ↦ e
    | inr (i, e) ↦ absurd (next_ne s.next_ino i e refl)
  ]

  entry_is_dir : parent.is_dir ≡ true
  entry_is_dir =
      let (i, found, kind) = v.linked request.parent_path parent can.parent_found in
      cc (found, kind, can.inode_found, can.parent_is_dir)

  ls_parent :
      asked.path ≡ request.parent_path
      → ls s asked response ≡ listing asked response parent_inode.dir_entries
  ls_parent e =
      ls_found s asked response parent parent_inode (rw e can.parent_found) entry_is_dir
        can.inode_found

  ls-made_parent :
      asked.path ≡ request.parent_path
      → ls (made s request parent) asked response
        ≡ listing asked response (parent_inode.dir_entries ++ entry ∷ [])
  unfolding add_dir
  ls-made_parent e =
      ls_found (made s request parent) asked response parent (add_child entry parent_inode)
        (rw e (
          with_node-entry_old s (add64 s.next_ino 1) parent.ino
            (new_dir_inode s.next_ino request.timestamp) entry request.parent_path parent
            can.parent_found))
        entry_is_dir
        (with_node-inode_parent s (add64 s.next_ino 1) parent.ino
          (new_dir_inode s.next_ino request.timestamp) entry parent_inode can.inode_found)

  ls-made_self :
      asked.path ≡ path → ls (made s request parent) asked response ≡ listing asked response []
  unfolding add_dir
  ls-made_self e =
      ls_found (made s request parent) asked response entry
        (new_dir_inode s.next_ino request.timestamp)
        (rw e (
          with_node-entry_new s (add64 s.next_ino 1) parent.ino
            (new_dir_inode s.next_ino request.timestamp) entry can.path_is_new))
        refl
        (with_node-inode_new s (add64 s.next_ino 1) parent.ino
          (new_dir_inode s.next_ino request.timestamp) entry next_is_new)

  ls-made_other :
      asked.path ≢ path
      → asked.path ≢ request.parent_path
      → ls (made s request parent) asked response ≡ ls s asked response
  unfolding add_dir
  ls-made_other h k =
      ls_same s (made s request parent) asked response
        (with_node-entry_other s (add64 s.next_ino 1) parent.ino
          (new_dir_inode s.next_ino request.timestamp) entry asked.path h)
        λ e found.
          let (i, there, kind) = v.linked asked.path e found in
          with_node-inode_other s (add64 s.next_ino 1) parent.ino
            (new_dir_inode s.next_ino request.timestamp) entry e.ino (next_ne e.ino i there)
            λ same. k (v.single asked.path request.parent_path e parent found can.parent_found same)

-- After a `mkdir` that succeeds, `ls` of the parent shows what it showed before and the new
-- directory behind it, and `ls` of the new path shows an empty directory.
pub mkdir_reply-ls :
    (s : StateMachine) (request : MakeDirRequest) (given : MakeDirResponse) (asked : ListDirRequest)
    (response : ListDirResponse)
    → IsConsistent s
    → (mkdir_reply s request given).1.status_code ≡ status_ok
    → let p = child_path request.parent_path request.name in
      let of_parent = record asked { path = request.parent_path } in
      let of_new = record asked { path = p } in
      (ls (mkdir_reply s request given).0 of_parent response
        ≡ listing of_parent response (
            (ls s of_parent response).dir_entries
            ++ new_dir_entry s.next_ino request.name p request.timestamp ∷ []))
      × (ls (mkdir_reply s request given).0 of_new response ≡ listing of_new response [])
mkdir_reply-ls s request given asked response v ok = elim (mkdir_reply_cases s request given) [
  | inl (_, failed) ↦ absurd (omega arith)
  | inr (parent, parent_inode, can, new, _) ↦ (
    rw
        (
          new,
          ls_parent s request parent parent_inode v can response
              (record asked { path = request.parent_path }) refl,
        )
        (ls-made_parent s request parent parent_inode v can response
          (record asked { path = request.parent_path }) refl),
    rw new (
        ls-made_self s request parent parent_inode v can response
          (record asked { path = child_path request.parent_path request.name }) refl),
  )
]

-- A `mkdir`, successful or not, changes what `ls` shows at no path but the parent's and the new one.
pub mkdir_reply-ls_other :
    (s : StateMachine) (request : MakeDirRequest) (given : MakeDirResponse) (asked : ListDirRequest)
    (response : ListDirResponse)
    → IsConsistent s
    → asked.path ≢ child_path request.parent_path request.name
    → asked.path ≢ request.parent_path
    → ls (mkdir_reply s request given).0 asked response ≡ ls s asked response
mkdir_reply-ls_other s request given asked response v h k =
    elim (mkdir_reply_cases s request given) [
      | inl (same, _) ↦ rw same
      | inr (parent, parent_inode, can, new, _) ↦
          rw new (ls-made_other s request parent parent_inode v can response asked h k)
    ]
