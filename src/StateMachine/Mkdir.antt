-- ===== src/StateMachine/Mkdir.antt =====
-- `StateMachine::mkdir`, without and with a response.
use vosfs.Common.{
  ℕ, ◌∷◌, ◌++◌, [], ◌≡◌, ◌⊎◌, inl, inr, arith, Option-cases, Bool-cases, true, false, none, some,
  Str, utf8, add64, not, ◌||◌, empty, contains_char, if◌then◌else◌, str_discrete, ℕ_discrete, ite,
}
use vosfs.Common.Map.{find, contains, emplace, modify}
use vosfs.Api.{Inode, DirEntry, MakeDirRequest, MakeDirResponse, default_inode, default_dir_entry}
use vosfs.StateMachine.Defs.{StateMachine, slash, root_path, status_ok, status_invalid_argument}

-- The path of `name` in a directory.
unfoldable pub child_path : Str → Str → Str
child_path parent_path name =
    ite (str_discrete parent_path root_path) (parent_path ++ name) (parent_path ++ slash ∷ name)

abbrev pub new_dir_inode : ℕ → ℕ → Inode
new_dir_inode new_ino timestamp = record default_inode {
  ino = new_ino;
  is_dir = true;
  size = 4096;
  ctime = timestamp;
  mtime = timestamp;
  nlink = 2;
}

abbrev pub new_dir_entry : ℕ → Str → Str → ℕ → DirEntry
new_dir_entry new_ino name path timestamp = record default_dir_entry {
  ino = new_ino;
  name = name;
  is_dir = true;
  path = path;
  size = 4096;
  ctime = timestamp;
  mtime = timestamp;
}

-- The entry of a new file or directory, in the entries of its parent's inode.
abbrev pub add_child : DirEntry → Inode → Inode
add_child e i = record i { dir_entries = i.dir_entries ++ e ∷ [] }

-- The last part of both versions of `mkdir`.
unfoldable pub add_dir : StateMachine → ℕ → Str → Str → ℕ → StateMachine
add_dir s parent_ino name path timestamp =
    let new_ino = s.next_ino in
    let new_entry = new_dir_entry new_ino name path timestamp in
    record s {
      next_ino = add64 s.next_ino 1;
      inodes =
          emplace ℕ_discrete new_ino (new_dir_inode new_ino timestamp)
            (modify ℕ_discrete parent_ino (add_child new_entry) s.inodes);
      dir_entries = emplace str_discrete path new_entry s.dir_entries;
    }

-- `void mkdir(const MakeDirRequest&)`
unfoldable pub mkdir : StateMachine → MakeDirRequest → StateMachine
mkdir s request = elim (find str_discrete request.parent_path s.dir_entries) [
  | none ↦ s
  | some parent ↦ elim (find ℕ_discrete parent.ino s.inodes) [
    | none ↦ s
    | some parent_inode ↦
        if not parent_inode.is_dir
        then s
        else if empty request.name || contains_char slash request.name
        then s
        else (let path = child_path request.parent_path request.name in
            if contains str_discrete path s.dir_entries
            then s
            else add_dir s parent.ino request.name path request.timestamp)
  ]
]

abbrev mkdir_error : StateMachine → MakeDirResponse → Str → StateMachine × MakeDirResponse
mkdir_error s response message =
    (s, record response { status_code = status_invalid_argument; message = message })

-- `void mkdir(const MakeDirRequest&, MakeDirResponse*)`
unfoldable pub mkdir_reply :
    StateMachine → MakeDirRequest → MakeDirResponse → StateMachine × MakeDirResponse
mkdir_reply s request response = elim (find str_discrete request.parent_path s.dir_entries) [
  | none ↦ mkdir_error s response (utf8 "目录创建失败：父目录不存在")
  | some parent ↦ elim (find ℕ_discrete parent.ino s.inodes) [
    | none ↦ mkdir_error s response (utf8 "目录创建失败：父节点不存在")
    | some parent_inode ↦
        if not parent_inode.is_dir
        then mkdir_error s response (utf8 "目录创建失败：父节点不是目录")
        else if empty request.name || contains_char slash request.name
        then mkdir_error s response (utf8 "目录创建失败：非法目录名，不能为空或包含'/'")
        else (let path = child_path request.parent_path request.name in
            if contains str_discrete path s.dir_entries
            then mkdir_error s response (utf8 "目录创建失败：目录已存在")
            else (
              add_dir s parent.ino request.name path request.timestamp,
              record response {
                status_code = status_ok;
                message = utf8 "创建目录成功：" ++ path;
                parent_path = request.parent_path;
              },
            ))
  ]
]

-- What `mkdir` has found when it gets as far as making the directory.
pub record CanMake (s : StateMachine) (request : MakeDirRequest) (parent : DirEntry)
    (parent_inode : Inode) : Type 0 where
  pub parent_found : find str_discrete request.parent_path s.dir_entries ≡ some parent
  pub inode_found : find ℕ_discrete parent.ino s.inodes ≡ some parent_inode
  pub parent_is_dir : parent_inode.is_dir ≡ true
  pub name_is_legal : empty request.name || contains_char slash request.name ≡ false
  pub path_is_new :
      find str_discrete (child_path request.parent_path request.name) s.dir_entries ≡ none

module _ (s : StateMachine) (request : MakeDirRequest) where
  abbrev pub made : DirEntry → StateMachine
  made parent =
      add_dir s parent.ino request.name (child_path request.parent_path request.name)
        request.timestamp

  -- `mkdir` changes nothing and reports an invalid argument, or makes the directory.
  abbrev pub MkdirOutcome : StateMachine → ℕ → Type 0
  MkdirOutcome t code =
      ((t ≡ s) × (code ≡ status_invalid_argument))
      ⊎ ((parent : DirEntry) × (parent_inode : Inode) × CanMake s request parent parent_inode
          × (t ≡ made parent)
          × (code ≡ status_ok))

  pub mkdir_reply_cases :
      (given : MakeDirResponse)
      → MkdirOutcome (mkdir_reply s request given).0 (mkdir_reply s request given).1.status_code
  unfolding mkdir_reply contains
  mkdir_reply_cases given =
      elim (Option-cases (find str_discrete request.parent_path s.dir_entries)) [
        | inl e ↦ inl (ground arith)
        | inr (parent, e) ↦ elim (Option-cases (find ℕ_discrete parent.ino s.inodes)) [
          | inl f ↦ inl (ground arith)
          | inr (parent_inode, f) ↦ elim (Bool-cases parent_inode.is_dir) [
            | inr g ↦ inl (ground arith)
            | inl g ↦ elim (Bool-cases (empty request.name || contains_char slash request.name)) [
              | inl l ↦ inl (ground arith)
              | inr l ↦
                  elim (Option-cases (
                    find str_discrete (child_path request.parent_path request.name)
                      s.dir_entries)) [
                        | inr (old, n) ↦ inl (ground arith)
                        | inl n ↦ inr (
                          parent,
                          parent_inode,
                          record {
                            parent_found = e;
                            inode_found = f;
                            parent_is_dir = g;
                            name_is_legal = l;
                            path_is_new = n;
                          },
                          ground arith,
                          ground arith,
                        )
                      ]
            ]
          ]
        ]
      ]

  -- The version without a response makes the same change.
  pub mkdir_reply-mkdir :
      (given : MakeDirResponse) → (mkdir_reply s request given).0 ≡ mkdir s request
  unfolding mkdir_reply mkdir contains
  mkdir_reply-mkdir given = ground arith
