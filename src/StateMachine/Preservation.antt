-- ===== src/StateMachine/Preservation.antt =====
-- Every operation of the state machine keeps the file tree consistent.
use mathlib.Core.Logic.{if_pos}
use vosfs.Common.{
  All-map, ℕ, ◌+◌, ◌<◌, ◌≤◌, ◌≡◌, refl, ◌⊎◌, inl, inr, List, Option, none, some, Str, arith,
  u64_mod, subst, str_discrete, ℕ_discrete, Option-cases,
}
use vosfs.Common.Map.{find, access}
use vosfs.Api.{
  MakeDirRequest, MakeDirResponse, UploadFileRequest, UploadFileResponse, PrepareUploadFileRequest,
  PrepareUploadFileResponse, EntryCommand, LogEntry, mutable_mkdir, mutable_upload_file,
  default_make_dir_response, default_upload_file_response, Inode, DirEntry,
}
use vosfs.StateMachine.Defs.{
  NodeInfo, StateMachine, PendingRequest, create, root_path, root_entry, root_inode,
}
use vosfs.StateMachine.Mkdir.{
  CanMake, child_path, add_dir, mkdir_reply, mkdir_reply_cases, mkdir_reply-mkdir, new_dir_inode,
  new_dir_entry, made,
}
use vosfs.StateMachine.Upload.{
  CanUpload, add_file, upload_file_reply, upload_file_reply_cases, uploaded, new_file_inode,
  new_file_entry, file_name, upload_file_reply-upload_file,
}
use vosfs.StateMachine.Queries.{prepare_upload_file}
use vosfs.StateMachine.Apply.{
  apply_entry, apply_entry_no_response, no_request, apply_command, apply_command_no_response,
}
use vosfs.StateMachine.Consistency.{IsConsistent, fresh, with_node-IsConsistent}

-- There is a number left for one more inode.
abbrev pub HasRoom : StateMachine → Type 0
HasRoom s = s.next_ino + 1 < u64_mod

root_only :
    (nodes : List NodeInfo) (k : ℕ) (i : Inode)
    → find ℕ_discrete k (create nodes).inodes ≡ some i
    → i ≡ root_inode
unfolding create find
root_only nodes k i h = ground arith

-- A new state machine is consistent.
pub create-IsConsistent : (nodes : List NodeInfo) → IsConsistent (create nodes)
unfolding create find
create-IsConsistent nodes = record {
  root = if_pos (str_discrete root_path root_path) refl (some root_entry) none;
  inodes_keyed = (refl, tt);
  entries_keyed = (refl, tt);
  linked = λ p e h. (root_inode, ground arith, ground arith);
  single = λ p q e f h k same. ground arith;
  below_next = (omega arith, tt);
  listed = λ k i h. rw (root_only nodes k i h) tt;
}

made-IsConsistent :
    (s : StateMachine) (request : MakeDirRequest) (parent : DirEntry) (parent_inode : Inode)
    → HasRoom s
    → IsConsistent s
    → CanMake s request parent parent_inode
    → IsConsistent (made s request parent)
unfolding add_dir
made-IsConsistent s request parent parent_inode room v can =
    with_node-IsConsistent s _ parent.ino (new_dir_inode s.next_ino request.timestamp)
      (new_dir_entry s.next_ino request.name (child_path request.parent_path request.name)
        request.timestamp)
      v (next_is_new (Option-cases (find ℕ_discrete s.next_ino s.inodes))) can.path_is_new refl refl
      refl (omega arith) (omega arith)
  where
    next_is_new :
        ((find ℕ_discrete s.next_ino s.inodes ≡ none)
          ⊎ ((i : Inode) × (find ℕ_discrete s.next_ino s.inodes ≡ some i)))
        → find ℕ_discrete s.next_ino s.inodes ≡ none
    next_is_new (inl e) = e
    next_is_new (inr (i, e)) = absurd (omega (arith, fresh v s.next_ino i e))

uploaded-IsConsistent :
    (s : StateMachine) (request : UploadFileRequest) (current_ms pos : ℕ) (parent : DirEntry)
    (parent_inode : Inode)
    → request.ino < s.next_ino
    → IsConsistent s
    → CanUpload s request pos parent parent_inode
    → IsConsistent (uploaded s request current_ms pos parent)
unfolding add_file
uploaded-IsConsistent s request current_ms pos parent parent_inode reserved v can =
    with_node-IsConsistent s s.next_ino parent.ino (new_file_inode request current_ms)
      (new_file_entry request (file_name request.path pos) current_ms) v can.ino_is_new
      can.path_is_new refl refl refl (omega arith) reserved

pub mkdir_reply-IsConsistent :
    (s : StateMachine) (request : MakeDirRequest) (given : MakeDirResponse)
    → HasRoom s
    → IsConsistent s
    → IsConsistent (mkdir_reply s request given).0
mkdir_reply-IsConsistent s request given room v = elim (mkdir_reply_cases s request given) [
  | inl (same, _) ↦ rw same v
  | inr (parent, parent_inode, can, new, _) ↦
      rw new (made-IsConsistent s request parent parent_inode room v can)
]

pub upload_file_reply-IsConsistent :
    (s : StateMachine) (request : UploadFileRequest) (current_ms : ℕ) (given : UploadFileResponse)
    → request.ino < s.next_ino
    → IsConsistent s
    → IsConsistent (upload_file_reply s request current_ms given).0
upload_file_reply-IsConsistent s request current_ms given reserved v =
    elim (upload_file_reply_cases s request current_ms given) [
      | inl (same, _) ↦ rw same v
      | inr (pos, parent, parent_inode, can, new, _) ↦
          rw new (uploaded-IsConsistent s request current_ms pos parent parent_inode reserved v can)
    ]

-- Only the tree matters.
same_tree-IsConsistent :
    (s t : StateMachine)
    → t.inodes ≡ s.inodes
    → t.dir_entries ≡ s.dir_entries
    → s.next_ino ≤ t.next_ino
    → IsConsistent s
    → IsConsistent t
same_tree-IsConsistent s t p q r v = record {
  root = rw q v.root;
  inodes_keyed = rw p v.inodes_keyed;
  entries_keyed = rw q v.entries_keyed;
  linked = λ k e h. rw p (v.linked k e (rw q at h));
  single = λ k l e f h g. v.single k l e f (rw q at h) (rw q at g);
  below_next = rw p (
      All-map (λ e. e.0 < s.next_ino) (λ e. e.0 < t.next_ino) s.inodes (λ e h. omega arith)
        v.below_next);
  listed = λ k i h. rw q (v.listed k i (rw p at h));
}

pub place-IsConsistent :
    (hash : ℕ → ℕ) (s t : StateMachine) (request : PrepareUploadFileRequest)
    (given response : PrepareUploadFileResponse)
    → HasRoom s
    → IsConsistent s
    → prepare_upload_file hash s request given ≡ some (t, response)
    → IsConsistent t
unfolding prepare_upload_file
place-IsConsistent hash s t request given response room v h =
    same_tree-IsConsistent s t (ground arith) (ground arith) (ground arith) v

-- An entry names only a number that `prepare_upload_file` has given out.
abbrev pub IsReserved : StateMachine → Option EntryCommand → Type 0
IsReserved s (some (EntryCommand.upload_file request)) = request.ino < s.next_ino
IsReserved s _ = Unit

command-IsConsistent :
    (s : StateMachine) (index : ℕ) (pending : PendingRequest) (command : EntryCommand)
    (current_ms : ℕ)
    → HasRoom s
    → IsReserved s (some command)
    → IsConsistent s
    → IsConsistent (apply_command s index pending command current_ms).0
command-IsConsistent s index pending EntryCommand.type_not_set current_ms room h v = v
command-IsConsistent s index pending (EntryCommand.mkdir request) current_ms room h v =
    same_tree-IsConsistent _ _ refl refl (omega arith)
      (mkdir_reply-IsConsistent s request (mutable_mkdir pending.response) room v)
command-IsConsistent s index pending (EntryCommand.upload_file request) current_ms room h v =
    same_tree-IsConsistent _ _ refl refl (omega arith) (
      upload_file_reply-IsConsistent s request current_ms (mutable_upload_file pending.response) h
        v)

quiet_command-IsConsistent :
    (s : StateMachine) (command : EntryCommand) (current_ms : ℕ)
    → HasRoom s
    → IsReserved s (some command)
    → IsConsistent s
    → IsConsistent (apply_command_no_response s command current_ms)
quiet_command-IsConsistent s EntryCommand.type_not_set current_ms room h v = v
quiet_command-IsConsistent s (EntryCommand.mkdir request) current_ms room h v =
    subst IsConsistent (mkdir_reply-mkdir s request default_make_dir_response)
      (mkdir_reply-IsConsistent s request default_make_dir_response room v)
quiet_command-IsConsistent s (EntryCommand.upload_file request) current_ms room h v =
    subst IsConsistent
      (upload_file_reply-upload_file s request current_ms default_upload_file_response)
      (upload_file_reply-IsConsistent s request current_ms default_upload_file_response h v)

module _ (parse_command : Str → Option EntryCommand) where
  -- On the leader and on the followers, an entry that is applied to a consistent tree with room for
  -- one more inode leaves a consistent tree, if an upload in it carries a number given out before.
  pub apply_entry-IsConsistent :
      (s : StateMachine) (entry : LogEntry) (current_ms : ℕ)
      → HasRoom s
      → IsReserved s (parse_command entry.command)
      → IsConsistent s
      → IsConsistent (apply_entry parse_command s entry current_ms).0
        × IsConsistent (apply_entry_no_response parse_command s entry current_ms)
  unfolding apply_entry apply_entry_no_response
  apply_entry-IsConsistent s entry current_ms room h v =
      elim (Option-cases (parse_command entry.command)) [
        | inl e ↦ (rw (e, apply_entry) touched, rw (e, apply_entry_no_response) v)
        | inr (command, e) ↦ (
          rw (e, apply_entry)
              (command-IsConsistent _ entry.index _ command current_ms room (rw e at h) touched),
          rw (e, apply_entry_no_response)
              (quiet_command-IsConsistent s command current_ms room (rw e at h) v),
        )
      ]
    where
      touched : IsConsistent (record s {
        pending_requests = (access ℕ_discrete entry.index no_request s.pending_requests).0;
      })
      touched = same_tree-IsConsistent s _ refl refl (omega arith) v
