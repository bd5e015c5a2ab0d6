-- ===== src/Storage/Defs.antt =====
-- The methods of `DataNode`. The file system and the check of a token are parameters.
use vosfs.Common.{
  ℕ, ◌≤◌, ◌≡◌, ◌≢◌, ◌∷◌, [], ◌++◌, Bool, true, Option, none, some, Str, utf8, not, ite,
  if◌then◌else◌, take, length, to_string, str_discrete,
}
use vosfs.Api.{UploadBlockRequest, UploadBlockResponse, DownloadBlockRequest, DownloadBlockResponse}
use vosfs.StateMachine.Defs.{status_ok, status_internal, status_permission_denied}

-- What a storage node uses of the file system. A `Bool` says whether the call succeeded.
pub record Disk (FS : Type 0) : Type 0 where
  -- `std::filesystem::exists(path)`
  pub exists : FS → Str → Bool
  -- `std::filesystem::create_directories(path)`
  pub create_directories : FS → Str → FS × Bool
  -- `File::create(path)`
  pub create : FS → Str → FS × Bool
  -- `file.write(data)` on the file that was created at the path: how many bytes were written
  pub write : FS → Str → Str → FS × Option ℕ
  -- `File::open(path)`
  pub open_file : FS → Str → Bool
  -- `file.read_to_end(data)` on the file that was opened at the path
  pub read_to_end : FS → Str → Option Str

-- What is documented of these calls, with the bytes of the file at a path: `create` leaves an empty
-- file, `write` writes a first part of the bytes, `read_to_end` reads all of the file, and none of
-- them touches another file.
pub record DiskLaws {FS : Type 0} (disk : Disk FS) : Type 0 where
  pub content : FS → Str → Str
  pub create_empty :
      (fs : FS) (path : Str)
      → (disk.create fs path).1 ≡ true
      → content (disk.create fs path).0 path ≡ []
  pub write_part :
      (fs : FS) (path bytes : Str) (n : ℕ)
      → content fs path ≡ []
      → (disk.write fs path bytes).1 ≡ some n
      → (n ≤ length bytes) × (content (disk.write fs path bytes).0 path ≡ take n bytes)
  pub read_all :
      (fs : FS) (path bytes : Str) → disk.read_to_end fs path ≡ some bytes → bytes ≡ content fs path
  pub create_other :
      (fs : FS) (path other : Str)
      → other ≢ path
      → (disk.open_file (disk.create fs path).0 other ≡ disk.open_file fs other)
        × (disk.read_to_end (disk.create fs path).0 other ≡ disk.read_to_end fs other)
  pub write_other :
      (fs : FS) (path bytes other : Str)
      → other ≢ path
      → (disk.open_file (disk.write fs path bytes).0 other ≡ disk.open_file fs other)
        × (disk.read_to_end (disk.write fs path bytes).0 other ≡ disk.read_to_end fs other)

pub record DataNode : Type 0 where
  pub id : ℕ
  pub block_dir : Str

abbrev pub slash_dir : Str
slash_dir = b'/' ∷ []

-- The name of the file of a block: `std::to_string(ino) + "-" + std::to_string(block_id)`
abbrev pub block_name : ℕ → ℕ → Str
block_name ino block_id = to_string ino ++ b'-' ∷ to_string block_id

-- `DataNode::get_block_path`
unfoldable pub get_block_path : DataNode → ℕ → ℕ → Str
unfolding str_discrete
get_block_path node ino block_id =
    ite (str_discrete node.block_dir slash_dir) (node.block_dir ++ block_name ino block_id)
      (node.block_dir ++ b'/' ∷ block_name ino block_id)

-- `DataNode::make_upload_block_response`
abbrev pub make_upload_block_response : ℕ → Str → ℕ → ℕ → ℕ → UploadBlockResponse
make_upload_block_response status_code message block_id ino data_node_id = record {
  status_code = status_code;
  message = message;
  block_id = block_id;
  ino = ino;
  data_node_id = data_node_id;
}

-- `DataNode::make_download_block_response`
abbrev pub make_download_block_response : ℕ → Str → ℕ → ℕ → ℕ → Str → DownloadBlockResponse
make_download_block_response status_code message block_id ino data_node_id bytes = record {
  status_code = status_code;
  message = message;
  block_id = block_id;
  ino = ino;
  data_node_id = data_node_id;
  bytes = bytes;
}

module _ {FS : Type 0} (disk : Disk FS) (verify_token : Str → Bool) where
  -- `DataNode::wait` up to the start of the server; no result is the exception.
  unfoldable pub wait : DataNode → FS → Option FS
  wait node fs =
      if disk.exists fs node.block_dir
      then some fs
      else (let (made, is_made) = disk.create_directories fs node.block_dir in
          if is_made then some made else none)

  -- `DataNode::handle_upload_block_request`
  unfoldable pub handle_upload_block_request :
      DataNode → FS → UploadBlockRequest → FS × UploadBlockResponse
  handle_upload_block_request node fs request =
      let answer = λ (code : ℕ) (message : Str).
        make_upload_block_response code message request.block_id request.ino node.id in
      if not (verify_token request.token)
      then (fs, answer status_permission_denied (utf8 "无效 Token"))
      else (let path = get_block_path node request.ino request.block_id in
          let (created, is_created) = disk.create fs path in
          if not is_created
          then (created, answer status_internal (utf8 "分片创建失败"))
          else (let (written, size) = disk.write created path request.bytes in
              elim size [
                | none ↦ (written, answer status_internal (utf8 "分片写入失败"))
                | some n ↦ (written, answer status_ok (utf8 "分片上传成功"))
              ]))

  -- `DataNode::handle_download_block_request`
  unfoldable pub handle_download_block_request :
      DataNode → FS → DownloadBlockRequest → DownloadBlockResponse
  handle_download_block_request node fs request =
      let answer = λ (code : ℕ) (message bytes : Str).
        make_download_block_response code message request.block_id request.ino node.id bytes in
      if not (verify_token request.token)
      then answer status_permission_denied (utf8 "无效 Token") []
      else (let path = get_block_path node request.ino request.block_id in
          if not (disk.open_file fs path)
          then answer status_internal (utf8 "分片读取失败") []
          else elim (disk.read_to_end fs path) [
            | none ↦ answer status_internal (utf8 "分片读取失败") []
            | some bytes ↦ answer status_ok (utf8 "分片读取成功") bytes
          ])
