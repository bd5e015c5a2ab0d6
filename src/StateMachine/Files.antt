-- ===== src/StateMachine/Files.antt =====
-- What an upload leaves behind: the blocks that a download finds, and the place in the tree.
use vosfs.Common.{
  ℕ, ◌≡◌, ◌∷◌, ◌++◌, true, false, some, Str, arith, inl, inr, str_discrete, ℕ_discrete, empty,
  contains_char, find_last_of-split, take,
}
use vosfs.Common.Map.{find}
use vosfs.Api.{
  DirEntry, Inode, UploadFileRequest, UploadFileResponse, PrepareDownloadFileRequest,
  PrepareDownloadFileResponse,
}
use vosfs.StateMachine.Defs.{StateMachine, slash, status_ok}
use vosfs.StateMachine.Upload.{
  CanUpload, add_file, upload_file_reply, upload_file_reply_cases, uploaded, new_file_inode,
  new_file_entry, file_name, parent_of,
}
use vosfs.StateMachine.Queries.{prepare_download_file}
use vosfs.StateMachine.Additions.{with_node-entry_new, with_node-inode_new}

module _ (s : StateMachine) (request : UploadFileRequest) (current_ms pos : ℕ) (parent : DirEntry)
    (parent_inode : Inode) (can : CanUpload s request pos parent parent_inode) where
  abbrev name : Str
  name = file_name request.path pos

  pub uploaded-entry :
      find str_discrete request.path (uploaded s request current_ms pos parent).dir_entries
      ≡ some (new_file_entry request name current_ms)
  unfolding add_file
  uploaded-entry =
      with_node-entry_new s s.next_ino parent.ino (new_file_inode request current_ms)
        (new_file_entry request name current_ms) can.path_is_new

  pub uploaded-inode :
      find ℕ_discrete request.ino (uploaded s request current_ms pos parent).inodes
      ≡ some (new_file_inode request current_ms)
  unfolding add_file
  uploaded-inode =
      with_node-inode_new s s.next_ino parent.ino (new_file_inode request current_ms)
        (new_file_entry request name current_ms) can.ino_is_new

  download-uploaded :
      (asked : PrepareDownloadFileRequest) (response : PrepareDownloadFileResponse)
      → asked.remote_path ≡ request.path
      → prepare_download_file (uploaded s request current_ms pos parent) asked response
        ≡ record response {
          local_path = asked.local_path;
          remote_path = asked.remote_path;
          blocks = request.blocks;
          status_code = status_ok;
        }
  unfolding prepare_download_file
  download-uploaded asked response e = ground (arith, uploaded-entry, uploaded-inode)

-- After an upload that succeeds, a download of its path is answered with exactly the blocks of the
-- upload.
pub upload_file_reply-prepare_download_file :
    (s : StateMachine) (request : UploadFileRequest) (current_ms : ℕ) (given : UploadFileResponse)
    (asked : PrepareDownloadFileRequest) (response : PrepareDownloadFileResponse)
    → (upload_file_reply s request current_ms given).1.status_code ≡ status_ok
    → asked.remote_path ≡ request.path
    → prepare_download_file (upload_file_reply s request current_ms given).0 asked response
      ≡ record response {
        local_path = asked.local_path;
        remote_path = asked.remote_path;
        blocks = request.blocks;
        status_code = status_ok;
      }
upload_file_reply-prepare_download_file s request current_ms given asked response ok e =
    elim (upload_file_reply_cases s request current_ms given) [
      | inl (_, failed) ↦ absurd (omega arith)
      | inr (pos, parent, parent_inode, can, new, _) ↦
          rw new
            (download-uploaded s request current_ms pos parent parent_inode can asked response e)
    ]

-- An upload that succeeds has split its path at the last `/`: the name behind it is not empty and
-- holds no `/`, what stands before it, or "/" if that is empty, was a directory in the tree, and the
-- entry is stored under the whole path with that name.
pub upload_file_reply-path :
    (s : StateMachine) (request : UploadFileRequest) (current_ms : ℕ) (given : UploadFileResponse)
    → (upload_file_reply s request current_ms given).1.status_code ≡ status_ok
    → (pos : ℕ) × (parent : DirEntry) × (parent_inode : Inode) × (take pos request.path
          ++ slash ∷ file_name request.path pos
        ≡ request.path)
      × (contains_char slash (file_name request.path pos) ≡ false)
      × (empty (file_name request.path pos) ≡ false)
      × (find str_discrete (parent_of request.path pos) s.dir_entries ≡ some parent)
      × (find ℕ_discrete parent.ino s.inodes ≡ some parent_inode)
      × (parent_inode.is_dir ≡ true)
      × (find str_discrete request.path (upload_file_reply s request current_ms given).0.dir_entries
          ≡ some (new_file_entry request (file_name request.path pos) current_ms))
upload_file_reply-path s request current_ms given ok =
    elim (upload_file_reply_cases s request current_ms given) [
      | inl (_, failed) ↦ absurd (omega arith)
      | inr (pos, parent, parent_inode, can, new, _) ↦
          (let (joined, no_slash) = find_last_of-split slash request.path pos can.separator_found in
            (
              pos,
              parent,
              parent_inode,
              joined,
              no_slash,
              ground (arith, can.name_is_legal),
              can.parent_found,
              can.inode_found,
              can.parent_is_dir,
              rw new (uploaded-entry s request current_ms pos parent parent_inode can),
            ))
    ]
