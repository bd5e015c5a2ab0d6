-- ===== src/Api/Files.antt =====
-- api/raftpb/raft.proto: the records of the file tree and the messages of the `fs` service.
use vosfs.Common.{ℕ, List, [], Bool, false, Str}

pub record BlockInfo : Type 0 where
  pub id : ℕ
  pub ino : ℕ
  pub offset : ℕ
  pub size : ℕ
  pub data_node_id : List ℕ

pub record DirEntry : Type 0 where
  pub ino : ℕ
  pub name : Str
  pub path : Str
  pub is_dir : Bool
  pub size : ℕ
  pub ctime : ℕ
  pub mtime : ℕ

pub record Inode : Type 0 where
  pub ino : ℕ
  pub mode : ℕ
  pub is_dir : Bool
  pub size : ℕ
  pub ctime : ℕ
  pub mtime : ℕ
  pub nlink : ℕ
  pub blocks : List BlockInfo
  pub dir_entries : List DirEntry

pub record Snapshot : Type 0 where
  pub last_included_index : ℕ
  pub last_included_term : ℕ
  pub inodes : List Inode
  pub dir_entries : List DirEntry

pub record ListDirRequest : Type 0 where
  pub token : Str
  pub path : Str

pub record ListDirResponse : Type 0 where
  pub status_code : ℕ
  pub message : Str
  pub path : Str
  pub dir_entries : List DirEntry

pub record MakeDirRequest : Type 0 where
  pub token : Str
  pub parent_path : Str
  pub name : Str
  pub timestamp : ℕ

pub record MakeDirResponse : Type 0 where
  pub status_code : ℕ
  pub message : Str
  pub parent_path : Str

pub record PrepareUploadFileRequest : Type 0 where
  pub token : Str
  pub local_path : Str
  pub remote_path : Str
  pub blocks : List BlockInfo

pub record PrepareUploadFileResponse : Type 0 where
  pub status_code : ℕ
  pub message : Str
  pub local_path : Str
  pub remote_path : Str
  pub blocks : List BlockInfo

pub record PrepareDownloadFileRequest : Type 0 where
  pub token : Str
  pub local_path : Str
  pub remote_path : Str

pub record PrepareDownloadFileResponse : Type 0 where
  pub status_code : ℕ
  pub message : Str
  pub local_path : Str
  pub remote_path : Str
  pub blocks : List BlockInfo

pub record UploadFileRequest : Type 0 where
  pub token : Str
  pub ino : ℕ
  pub path : Str
  pub blocks : List BlockInfo

pub record UploadFileResponse : Type 0 where
  pub status_code : ℕ
  pub message : Str
  pub ino : ℕ

-- The `oneof type` of each of the two messages; `type_not_set` is the case of an empty message.
pub data EntryCommand : Type 0 where
  type_not_set : EntryCommand
  mkdir : MakeDirRequest → EntryCommand
  upload_file : UploadFileRequest → EntryCommand

pub data PendingResponse : Type 0 where
  type_not_set : PendingResponse
  mkdir : MakeDirResponse → PendingResponse
  upload_file : UploadFileResponse → PendingResponse

abbrev pub default_list_dir_response : ListDirResponse
default_list_dir_response = record { status_code = 0; message = []; path = []; dir_entries = [] }

abbrev pub default_make_dir_response : MakeDirResponse
default_make_dir_response = record { status_code = 0; message = []; parent_path = [] }

abbrev pub default_upload_file_response : UploadFileResponse
default_upload_file_response = record { status_code = 0; message = []; ino = 0 }

abbrev pub default_prepare_upload_file_response : PrepareUploadFileResponse
default_prepare_upload_file_response = record {
  status_code = 0;
  message = [];
  local_path = [];
  remote_path = [];
  blocks = [];
}

abbrev pub default_prepare_download_file_response : PrepareDownloadFileResponse
default_prepare_download_file_response = record {
  status_code = 0;
  message = [];
  local_path = [];
  remote_path = [];
  blocks = [];
}

-- `response.mutable_mkdir()`: the case becomes `mkdir`, with default values unless it was already.
abbrev pub mutable_mkdir : PendingResponse → MakeDirResponse
mutable_mkdir (PendingResponse.mkdir r) = r
mutable_mkdir _ = default_make_dir_response

-- `response.mutable_upload_file()`
abbrev pub mutable_upload_file : PendingResponse → UploadFileResponse
mutable_upload_file (PendingResponse.upload_file r) = r
mutable_upload_file _ = default_upload_file_response

abbrev pub default_inode : Inode
default_inode = record {
  ino = 0;
  mode = 0;
  is_dir = false;
  size = 0;
  ctime = 0;
  mtime = 0;
  nlink = 0;
  blocks = [];
  dir_entries = [];
}

abbrev pub default_dir_entry : DirEntry
default_dir_entry = record {
  ino = 0;
  name = [];
  path = [];
  is_dir = false;
  size = 0;
  ctime = 0;
  mtime = 0;
}

abbrev pub default_snapshot : Snapshot
default_snapshot = record {
  last_included_index = 0;
  last_included_term = 0;
  inodes = [];
  dir_entries = [];
}
