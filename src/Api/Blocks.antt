-- ===== src/Api/Blocks.antt =====
-- api/raftpb/raft.proto: the messages of a storage node.
use vosfs.Common.{ℕ, Str}

pub record UploadBlockRequest : Type 0 where
  pub token : Str
  pub block_id : ℕ
  pub ino : ℕ
  pub bytes : Str

pub record UploadBlockResponse : Type 0 where
  pub status_code : ℕ
  pub message : Str
  pub block_id : ℕ
  pub ino : ℕ
  pub data_node_id : ℕ

pub record DownloadBlockRequest : Type 0 where
  pub token : Str
  pub block_id : ℕ
  pub ino : ℕ

pub record DownloadBlockResponse : Type 0 where
  pub status_code : ℕ
  pub message : Str
  pub block_id : ℕ
  pub ino : ℕ
  pub data_node_id : ℕ
  pub bytes : Str
