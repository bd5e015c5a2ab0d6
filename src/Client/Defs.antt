-- ===== src/Client/Defs.antt =====
-- The state of `VosfsClient`. What it hands to the user interface and to the network is kept in the
-- order in which it is handed over.
use vosfs.Common.{ℕ, ◌∷◌, [], ◌++◌, List, Bool, false, Option, Str, ℤ, pos, ◌⊎◌, ◌==◌, ◌||◌}
use vosfs.Common.Map.{Map}
use vosfs.Api.{
  RegisterUserRequest, DeleteUserRequest, LoginUserByNameRequest, ListDirRequest, MakeDirRequest,
  PrepareUploadFileRequest, UploadFileRequest, PrepareDownloadFileRequest, UploadBlockRequest,
  DownloadBlockRequest,
}

-- `detail::BlockInfo` of include/vosfs/ui/transport_task.hpp
pub record BlockTask : Type 0 where
  pub remaing_times : ℕ
  pub id : ℕ
  pub ino : ℕ
  pub offset : ℕ
  pub size : ℕ
  pub data_node_ids : Map ℕ Bool

-- `detail::TransportTask`
pub record TransportTask : Type 0 where
  pub ino : ℕ
  pub total_blocks : ℕ
  pub done_blocks : ℕ
  pub local_path : Str
  pub remote_path : Str
  pub blocks : Map ℕ BlockTask

-- What `operator[]` makes for a key that is missing.
abbrev pub default_block : BlockTask
default_block = record {
  remaing_times = 0;
  id = 0;
  ino = 0;
  offset = 0;
  size = 0;
  data_node_ids = [];
}

abbrev pub default_task : TransportTask
default_task = record {
  ino = 0;
  total_blocks = 0;
  done_blocks = 0;
  local_path = [];
  remote_path = [];
  blocks = [];
}

pub record UserSession : Type 0 where
  pub token : Str
  pub uid : ℤ
  pub user_name : Str
  pub avatar : Str
  pub role : ℤ
  pub quota : ℕ
  pub create_time : Str

abbrev pub default_session : UserSession
default_session = record {
  token = [];
  uid = pos 0;
  user_name = [];
  avatar = [];
  role = pos 0;
  quota = 0;
  create_time = [];
}

-- A coroutine in the queue `tasks_`: which one, and its arguments.
pub data Job : Type 0 where
  send_register_user : Str → Str → ℤ → Str → Job
  send_delete_user : Str → Job
  send_login_user_by_name : Str → Str → ℤ → Job
  send_list_dir : Str → Job
  send_make_dir : Str → Str → Job
  send_prepare_upload_file : Str → Str → Job
  send_prepare_download_file : Str → Str → Job
  -- the local path, the block's id, inode, offset and size, and the storage node
  send_upload_block : Str → ℕ → ℕ → ℕ → ℕ → ℕ → Job
  send_upload_file : ℕ → Job
  -- the block's id and inode, and the storage node
  send_download_block : ℕ → ℕ → ℕ → Job
  load_transport_tasks : Job
  shutdown_auth : Job
  shutdown_raft : ℕ → Job

-- A remote call: the node, unless it is the authentication node, and the request.
pub data Call : Type 0 where
  register : RegisterUserRequest → Call
  delete : DeleteUserRequest → Call
  login_by_name : LoginUserByNameRequest → Call
  ls : ℕ → ListDirRequest → Call
  mkdir : ℕ → MakeDirRequest → Call
  prepare_upload_file : ℕ → PrepareUploadFileRequest → Call
  upload_file : ℕ → UploadFileRequest → Call
  prepare_download_file : ℕ → PrepareDownloadFileRequest → Call
  upload_block : ℕ → UploadBlockRequest → Call
  download_block : ℕ → DownloadBlockRequest → Call

-- An item of the page of transfers: upload or download, the inode and the progress.
pub record Progress : Type 0 where
  pub is_upload : Bool
  pub ino : ℕ
  pub progress : Str

-- An item of a directory's list, with its times as they are shown.
pub record Item : Type 0 where
  pub ino : ℕ
  pub name : Str
  pub path : Str
  pub is_dir : Bool
  pub ctime : Str
  pub mtime : Str

-- A signal to the user interface.
pub data Signal : Type 0 where
  append_log : Str → Signal
  register_finished : Bool → Str → Signal
  delete_finished : Bool → Str → Signal
  login_finished : Bool → Str → Signal
  list_dir_finished : Str → List Item → Signal
  make_dir_finished : Signal
  upload_file_finished : Bool → Signal
  update_transport_page_finished : List Progress → Signal

-- `vrpc::Status`
pub record RpcStatus : Type 0 where
  pub is_ok : Bool
  pub message : Str

pub record Client (FS : Type 0) : Type 0 where
  pub is_shutdown : Bool
  pub session : UserSession
  pub leader_id : ℕ
  -- the keys of `raft_clients_` and `data_clients_`
  pub raft_clients : List ℕ
  pub data_clients : List ℕ
  pub tasks : List Job
  pub upload_tasks : Map ℕ TransportTask
  pub download_tasks : Map ℕ TransportTask
  -- the local files, the signals that were sent and the calls that were made
  pub fs : FS
  pub signals : List Signal
  pub calls : List Call

-- What the client uses of other code. An error of a call comes as its text.
pub record Desktop (FS : Type 0) : Type 0 where
  -- `std::filesystem::exists(path)`
  pub exists : FS → Str → Bool
  -- the size that `kosio::fs::metadata(path)` tells
  pub metadata : FS → Str → Str ⊎ ℕ
  -- `File::open(path)`: the text of the error, if there is one
  pub open_file : FS → Str → Option Str
  -- `file.seek(offset, SEEK_SET)` on the file at the path
  pub seek : FS → Str → ℕ → Bool
  -- `file.read(buffer)` behind the seek: the offset, the size of the buffer, and what was read
  pub read : FS → Str → ℕ → ℕ → Str ⊎ Str
  -- `File::options().truncate(false).create(true).write(true).open(path)`
  pub open_write : FS → Str → FS × Option Str
  -- `file.write_all(data)` at the offset of the file at the path
  pub write_all : FS → Str → ℕ → Str → FS × Option Str
  -- `std::ofstream f(path, std::ios::trunc); f << text`: nothing happens if it does not open
  pub save : FS → Str → Str → FS
  -- the text of the file that `std::ifstream` opens
  pub load : FS → Str → Str
  -- `jwt::decode(token).get_payload_claim(name).as_string()`; no result is the exception
  pub claim : Str → Str → Option Str
  pub sha256 : Str → Str
  pub format_time : ℕ → Str

module _ {FS : Type 0} where
  abbrev pub emit : Signal → Client FS → Client FS
  emit signal c = record c { signals = c.signals ++ signal ∷ [] }

  abbrev pub log : Str → Client FS → Client FS
  log text c = emit (Signal.append_log text) c

  -- `tasks_.emplace(...)`
  abbrev pub enqueue : Job → Client FS → Client FS
  enqueue job c = record c { tasks = c.tasks ++ job ∷ [] }

  abbrev pub call : Call → Client FS → Client FS
  call request c = record c { calls = c.calls ++ request ∷ [] }

abbrev pub member : ℕ → List ℕ → Bool
member k [] = false
member k (j ∷ js) = j == k || member k js
