-- ===== src/StateMachine/Queries.antt =====
-- `StateMachine::ls`, `prepare_upload_file` and `prepare_download_file`.
use Prim.Native.Nat.{bit_or}
use vosfs.Common.{
  ℕ, zero, suc, ◌+◌, ◌*◌, ◌%◌, ◌^◌, ◌∷◌, ◌++◌, [], Option, none, some, List, utf8, add64, not, ◌==◌,
  if◌then◌else◌, length, get_elem?, u64_mod, ◌>>=◌, str_discrete, ℕ_discrete,
}
use vosfs.Common.Map.{find, contains}
use vosfs.Api.{
  BlockInfo, ListDirRequest, ListDirResponse, PrepareUploadFileRequest, PrepareUploadFileResponse,
  PrepareDownloadFileRequest, PrepareDownloadFileResponse,
}
use vosfs.StateMachine.Defs.{
  NodeInfo, StateMachine, status_ok, status_invalid_argument, status_internal,
}

-- `StateMachine::ls`: the response is the only result.
unfoldable pub ls : StateMachine → ListDirRequest → ListDirResponse → ListDirResponse
ls s request response = elim (find str_discrete request.path s.dir_entries) [
  | none ↦ record response { status_code = status_invalid_argument; message = utf8 "路径不存在" }
  | some entry ↦
      if not entry.is_dir
      then record response { status_code = status_internal; message = utf8 "节点不是目录" }
      else elim (find ℕ_discrete entry.ino s.inodes) [
        | none ↦ record response { status_code = status_invalid_argument; message = utf8 "节点不存在" }
        | some inode ↦ record response {
          status_code = status_ok;
          message = utf8 "显示目录：" ++ request.path;
          path = request.path;
          dir_entries = inode.dir_entries;
        }
      ]
]

abbrev pub replica_node_size : ℕ
replica_node_size = 2

-- `a % n` on `size_t`, which has no defined result for `n = 0`.
abbrev pub modulo : ℕ → ℕ → Option ℕ
modulo a n = if n == 0 then none else some (a % n)

-- The loop over the replicas of one block: `node_index` walks round the data nodes.
unfoldable pub add_replicas : ℕ → List NodeInfo → ℕ → BlockInfo → Option BlockInfo
add_replicas zero nodes node_index block = some block
add_replicas (suc n) nodes node_index block = do
  node ← get_elem? nodes node_index
  next ← modulo (node_index + 1) (length nodes)
  add_replicas n nodes next (record block { data_node_id = block.data_node_id ++ node.id ∷ [] })

-- `(ino << 32) | block_info.id()`
abbrev pub block_key : ℕ → ℕ → ℕ
block_key ino id = bit_or (ino * 2 ^ 32 % u64_mod) id

-- `hash` is `std::hash<uint64_t>`.
module _ (hash : ℕ → ℕ) where
  unfoldable pub place_block : List NodeInfo → ℕ → BlockInfo → Option BlockInfo
  unfolding add_replicas
  place_block nodes ino block = do
    node_index ← modulo (hash (block_key ino block.id)) (length nodes)
    add_replicas replica_node_size nodes node_index (record block { ino = ino })

  unfoldable pub place_blocks : List NodeInfo → ℕ → List BlockInfo → Option (List BlockInfo)
  unfolding place_block
  place_blocks nodes ino [] = some []
  place_blocks nodes ino (b ∷ bs) = do
    placed ← place_block nodes ino b
    rest ← place_blocks nodes ino bs
    some (placed ∷ rest)

  -- `StateMachine::prepare_upload_file`; no result where it divides by the number of no nodes.
  unfoldable pub prepare_upload_file :
      StateMachine
      → PrepareUploadFileRequest
      → PrepareUploadFileResponse
      → Option (StateMachine × PrepareUploadFileResponse)
  unfolding place_blocks
  prepare_upload_file s request given =
      let response = record given {
        local_path = request.local_path;
        remote_path = request.remote_path;
      } in
      if contains str_discrete request.remote_path s.dir_entries
      then some (
        s,
        record response { status_code = status_invalid_argument; message = utf8 "文件上传失败：存在同名文件" },
      )
      else do
        let ino = s.next_ino
        blocks ← place_blocks s.data_nodes ino request.blocks
        some (
          record s { next_ino = add64 ino 1 },
          record response { blocks = blocks; status_code = status_ok },
        )

-- `StateMachine::prepare_download_file`
unfoldable pub prepare_download_file :
    StateMachine
    → PrepareDownloadFileRequest
    → PrepareDownloadFileResponse
    → PrepareDownloadFileResponse
prepare_download_file s request given =
    let response = record given {
      local_path = request.local_path;
      remote_path = request.remote_path;
    } in
    elim (find str_discrete request.remote_path s.dir_entries) [
      | none ↦ record response {
        status_code = status_invalid_argument;
        message = utf8 "文件下载失败：不存在";
      }
      | some entry ↦ elim (find ℕ_discrete entry.ino s.inodes) [
        | none ↦ record response {
          status_code = status_invalid_argument;
          message = utf8 "文件下载失败：节点不存在";
        }
        | some inode ↦ record response { blocks = inode.blocks; status_code = status_ok }
      ]
    ]
