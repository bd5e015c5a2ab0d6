-- ===== src/StateMachine/Upload.antt =====
-- `StateMachine::upload_file`, without and with a response. `current_ms` is the time that the
-- function reads from the clock.
use vosfs.Common.{
  ℕ, suc, ◌∷◌, ◌++◌, [], ◌≡◌, ◌⊎◌, inl, inr, arith, Option-cases, Bool-cases, true, false, none,
  some, List, Str, utf8, add64, not, ◌||◌, ◌==◌, empty, contains_char, find_last_of, take, drop,
  if◌then◌else◌, str_discrete, ℕ_discrete,
}
use vosfs.Common.Map.{find, contains, emplace, modify}
use vosfs.Api.{
  BlockInfo, Inode, DirEntry, UploadFileRequest, UploadFileResponse, default_inode,
  default_dir_entry,
}
use vosfs.StateMachine.Defs.{StateMachine, slash, root_path, status_ok, status_invalid_argument}
use vosfs.StateMachine.Mkdir.{add_child}

-- `size += block.size()` over the blocks
unfoldable pub sum_sizes : ℕ → List BlockInfo → ℕ
sum_sizes size [] = size
sum_sizes size (b ∷ bs) = sum_sizes (add64 size b.size) bs

abbrev pub new_file_inode : UploadFileRequest → ℕ → Inode
new_file_inode request current_ms = record default_inode {
  ino = request.ino;
  is_dir = false;
  size = sum_sizes 0 request.blocks;
  ctime = current_ms;
  mtime = current_ms;
  nlink = 1;
  blocks = request.blocks;
}

abbrev pub new_file_entry : UploadFileRequest → Str → ℕ → DirEntry
new_file_entry request name current_ms = record default_dir_entry {
  ino = request.ino;
  name = name;
  path = request.path;
  is_dir = false;
  size = sum_sizes 0 request.blocks;
  ctime = current_ms;
  mtime = current_ms;
}

-- The two parts of a path at its last separator, which stands at `pos`.
abbrev pub file_name : Str → ℕ → Str
file_name path pos = drop (suc pos) path

abbrev pub parent_of : Str → ℕ → Str
parent_of path pos = if pos == 0 then root_path else take pos path

-- The last part of both versions of `upload_file`.
unfoldable pub add_file : StateMachine → ℕ → UploadFileRequest → Str → ℕ → StateMachine
unfolding sum_sizes
add_file s parent_ino request name current_ms =
    let new_entry = new_file_entry request name current_ms in
    record s {
      inodes =
          emplace ℕ_discrete request.ino (new_file_inode request current_ms)
            (modify ℕ_discrete parent_ino (add_child new_entry) s.inodes);
      dir_entries = emplace str_discrete request.path new_entry s.dir_entries;
    }

-- `void upload_file(const UploadFileRequest&)`
unfoldable pub upload_file : StateMachine → UploadFileRequest → ℕ → StateMachine
upload_file s request current_ms =
    if contains ℕ_discrete request.ino s.inodes || contains str_discrete request.path s.dir_entries
    then s
    else elim (find_last_of slash request.path) [
      | none ↦ s
      | some pos ↦
          let name = file_name request.path pos in
          elim (find str_discrete (parent_of request.path pos) s.dir_entries) [
            | none ↦ s
            | some parent ↦ elim (find ℕ_discrete parent.ino s.inodes) [
              | none ↦ s
              | some parent_inode ↦
                  if not parent_inode.is_dir
                  then s
                  else if empty name || contains_char slash name
                  then s
                  else add_file s parent.ino request name current_ms
            ]
          ]
    ]

abbrev upload_error : StateMachine → UploadFileResponse → Str → StateMachine × UploadFileResponse
upload_error s response message =
    (s, record response { status_code = status_invalid_argument; message = message })

-- `void upload_file(const UploadFileRequest&, UploadFileResponse*)`
unfoldable pub upload_file_reply :
    StateMachine → UploadFileRequest → ℕ → UploadFileResponse → StateMachine × UploadFileResponse
upload_file_reply s request current_ms given =
    let response = record given { ino = request.ino } in
    if contains ℕ_discrete request.ino s.inodes || contains str_discrete request.path s.dir_entries
    then upload_error s response (utf8 "文件上传失败：已存在")
    else elim (find_last_of slash request.path) [
      | none ↦ upload_error s response (utf8 "文件路径非法：无分隔符")
      | some pos ↦
          let name = file_name request.path pos in
          let parent_path = parent_of request.path pos in
          elim (find str_discrete parent_path s.dir_entries) [
            | none ↦ upload_error s response (utf8 "文件上传失败：父目录不存在 " ++ parent_path)
            | some parent ↦ elim (find ℕ_discrete parent.ino s.inodes) [
              | none ↦ upload_error s response (utf8 "文件上传失败：父节点不存在")
              | some parent_inode ↦
                  if not parent_inode.is_dir
                  then upload_error s response (utf8 "文件上传失败：父节点不是目录")
                  else if empty name || contains_char slash name
                  then upload_error s response (utf8 "文件上传失败：非法文件名，不能为空或包含'/'")
                  else (
                    add_file s parent.ino request name current_ms,
                    record response {
                      status_code = status_ok;
                      message = utf8 "文件上传成功：" ++ request.path;
                    },
                  )
            ]
          ]
    ]

-- What `upload_file` has found when it gets as far as making the file.
pub record CanUpload (s : StateMachine) (request : UploadFileRequest) (pos : ℕ) (parent : DirEntry)
    (parent_inode : Inode) : Type 0 where
  pub ino_is_new : find ℕ_discrete request.ino s.inodes ≡ none
  pub path_is_new : find str_discrete request.path s.dir_entries ≡ none
  pub separator_found : find_last_of slash request.path ≡ some pos
  pub parent_found : find str_discrete (parent_of request.path pos) s.dir_entries ≡ some parent
  pub inode_found : find ℕ_discrete parent.ino s.inodes ≡ some parent_inode
  pub parent_is_dir : parent_inode.is_dir ≡ true
  pub name_is_legal :
      empty (file_name request.path pos) || contains_char slash (file_name request.path pos) ≡ false

module _ (s : StateMachine) (request : UploadFileRequest) (current_ms : ℕ) where
  abbrev pub uploaded : ℕ → DirEntry → StateMachine
  uploaded pos parent = add_file s parent.ino request (file_name request.path pos) current_ms

  -- Either version changes nothing and reports an invalid argument, or makes the file.
  abbrev pub UploadOutcome : StateMachine → ℕ → Type 0
  UploadOutcome t code =
      ((t ≡ s) × (code ≡ status_invalid_argument))
      ⊎ ((pos : ℕ) × (parent : DirEntry) × (parent_inode : Inode) × CanUpload s request pos parent
            parent_inode
          × (t ≡ uploaded pos parent)
          × (code ≡ status_ok))

  pub upload_file_reply_cases :
      (given : UploadFileResponse)
      → UploadOutcome
          (upload_file_reply s request current_ms given).0
          (upload_file_reply s request current_ms given).1.status_code
  unfolding upload_file_reply contains
  upload_file_reply_cases given = elim (Option-cases (find ℕ_discrete request.ino s.inodes)) [
    | inr (old, a) ↦ inl (ground arith)
    | inl a ↦ elim (Option-cases (find str_discrete request.path s.dir_entries)) [
      | inr (old, b) ↦ inl (ground arith)
      | inl b ↦ elim (Option-cases (find_last_of slash request.path)) [
        | inl c ↦ inl (ground arith)
        | inr (pos, c) ↦
            elim (Option-cases (find str_discrete (parent_of request.path pos) s.dir_entries)) [
              | inl d ↦ inl (ground arith)
              | inr (parent, d) ↦ elim (Option-cases (find ℕ_discrete parent.ino s.inodes)) [
                | inl e ↦ inl (ground arith)
                | inr (parent_inode, e) ↦ elim (Bool-cases parent_inode.is_dir) [
                  | inr f ↦ inl (ground arith)
                  | inl f ↦
                      elim (Bool-cases (
                        empty (file_name request.path pos)
                        || contains_char slash (file_name request.path pos))) [
                          | inl g ↦ inl (ground arith)
                          | inr g ↦ inr (
                            pos,
                            parent,
                            parent_inode,
                            record {
                              ino_is_new = a;
                              path_is_new = b;
                              separator_found = c;
                              parent_found = d;
                              inode_found = e;
                              parent_is_dir = f;
                              name_is_legal = g;
                            },
                            ground arith,
                            ground arith,
                          )
                        ]
                ]
              ]
            ]
      ]
    ]
  ]

  -- The version without a response makes the same change.
  pub upload_file_reply-upload_file :
      (given : UploadFileResponse)
      → (upload_file_reply s request current_ms given).0 ≡ upload_file s request current_ms
  unfolding upload_file_reply upload_file contains
  upload_file_reply-upload_file given = ground arith
