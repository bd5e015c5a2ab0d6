-- ===== src/StateMachine/Divergence.antt =====
-- Where replicas that apply the same entries come apart.
use mathlib.Core.Option.{some-injective}
use vosfs.Common.{
  ◌⊎◌, Option, add64, ℕ, ◌≡◌, ◌≢◌, refl, sym, ◌∙◌, true, false, none, some, arith, inl, inr, ap,
  str_discrete, ℕ_discrete,
}
use vosfs.Common.Map.{find, find-modify-some, find-emplace_old}
use vosfs.Api.{
  DirEntry, Inode, UploadFileRequest, UploadFileResponse, MakeDirRequest, MakeDirResponse,
}
use vosfs.StateMachine.Defs.{StateMachine, status_ok}
use vosfs.StateMachine.Mkdir.{
  CanMake, child_path, add_child, add_dir, made, mkdir_reply, mkdir_reply_cases, new_dir_entry,
  new_dir_inode,
}
use vosfs.StateMachine.Upload.{
  CanUpload, add_file, upload_file_reply, upload_file_reply_cases, uploaded, new_file_inode,
}
use vosfs.StateMachine.Consistency.{IsConsistent}
use vosfs.StateMachine.Additions.{with_node-entry_new}
use vosfs.StateMachine.Files.{uploaded-inode, upload_file_reply-path}

abbrev ctime_of : Option DirEntry → ℕ
ctime_of none = 0
ctime_of (some e) = e.ctime

-- Two replicas that apply the same upload to the same tree, and read different times from their
-- clocks, end with different trees, if the upload succeeds on both.
pub upload_file_reply-clock :
    (s : StateMachine) (request : UploadFileRequest) (now later : ℕ) (given : UploadFileResponse)
    → now ≢ later
    → (upload_file_reply s request now given).1.status_code ≡ status_ok
    → (upload_file_reply s request later given).1.status_code ≡ status_ok
    → (upload_file_reply s request now given).0.dir_entries
      ≢ (upload_file_reply s request later given).0.dir_entries
upload_file_reply-clock s request now later given ne ok ok' same =
    let a = upload_file_reply-path s request now given ok in
    let b = upload_file_reply-path s request later given ok' in
    ne (ap ctime_of (sym a.9 ∙ ap (find str_discrete request.path) same ∙ b.9))

file_found :
    (s : StateMachine) (upload : UploadFileRequest) (current_ms pos : ℕ) (parent : DirEntry)
    (parent_inode : Inode)
    → upload.ino ≡ s.next_ino
    → CanUpload s upload pos parent parent_inode
    → (t : StateMachine) → t ≡ uploaded s upload current_ms pos parent
    → find ℕ_discrete t.next_ino t.inodes ≡ some (new_file_inode upload current_ms)
unfolding add_file
file_found s upload current_ms pos parent parent_inode next can t e =
    rw (e, ← next) (uploaded-inode s upload current_ms pos parent parent_inode can)

-- A directory that is made under the number of a file.
made_on_file :
    (s : StateMachine) (request : MakeDirRequest) (i : Inode) (parent : DirEntry)
    (parent_inode : Inode)
    → find ℕ_discrete s.next_ino s.inodes ≡ some i
    → i.is_dir ≡ false
    → CanMake s request parent parent_inode
    → ¬ IsConsistent (made s request parent)
unfolding add_dir
made_on_file s request i parent parent_inode taken file can v =
    let entry =
      new_dir_entry s.next_ino request.name (child_path request.parent_path request.name)
        request.timestamp in
    let inode = new_dir_inode s.next_ino request.timestamp in
    let (o, kept, same) =
      find-modify-some ℕ_discrete parent.ino s.next_ino (add_child entry) i s.inodes taken in
    let still = find-emplace_old ℕ_discrete s.next_ino s.next_ino inode o _ kept in
    let there = with_node-entry_new s (add64 s.next_ino 1) parent.ino inode entry can.path_is_new in
    let (j, found, kind) = v.linked entry.path entry there in
    file_ne_dir i o j file same (some-injective o j (sym still ∙ found)) kind
  where
    file_ne_dir :
        (i o j : Inode)
        → i.is_dir ≡ false
        → ((o ≡ i)
            ⊎ (o
                ≡ add_child
                    (new_dir_entry s.next_ino request.name
                      (child_path request.parent_path request.name)
                      request.timestamp)
                    i))
        → o ≡ j
        → j.is_dir ≡ true
        → ⊥
    file_ne_dir i o j file (inl e) q kind = cc
    file_ne_dir i o j file (inr e) q kind = cc

-- A replica that applies an upload does not move `next_ino` behind the number of the file. Where it
-- did not hand the number out itself and the number is its next one, a `mkdir` that succeeds after
-- the upload leaves an inconsistent tree: the new directory's entry stands on the inode of the file.
pub mkdir_reply-upload_file_reply :
    (s : StateMachine) (upload : UploadFileRequest) (current_ms : ℕ) (given : UploadFileResponse)
    (request : MakeDirRequest) (response : MakeDirResponse)
    → upload.ino ≡ s.next_ino
    → (upload_file_reply s upload current_ms given).1.status_code ≡ status_ok
    → (mkdir_reply (upload_file_reply s upload current_ms given).0 request response).1.status_code
      ≡ status_ok
    → ¬ IsConsistent
        (mkdir_reply (upload_file_reply s upload current_ms given).0 request response).0
mkdir_reply-upload_file_reply s upload current_ms given request response next ok ok' =
    elim (upload_file_reply_cases s upload current_ms given) [
      | inl (_, failed) ↦ absurd (omega arith)
      | inr (pos, parent, parent_inode, can, new, _) ↦
          elim (mkdir_reply_cases (upload_file_reply s upload current_ms given).0 request
            response) [
              | inl (_, failed) ↦ absurd (omega arith)
              | inr (p, p_inode, can', new', _) ↦ rw new' (
                  made_on_file _ request (new_file_inode upload current_ms) p p_inode
                    (file_found s upload current_ms pos parent parent_inode next can _ new) refl
                    can')
            ]
    ]
