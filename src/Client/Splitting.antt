-- ===== src/Client/Splitting.antt =====
-- The loop of `send_prepare_upload_file_request` that cuts a file into blocks.
use vosfs.Common.{
  ℕ, zero, suc, ◌+◌, ◌-◌, ◌*◌, ◌/◌, ◌∷◌, [], List, Option, none, some, ltb, leb, if◌then◌else◌,
  add64, ◌>>=◌,
}
use vosfs.Api.{BlockInfo}

-- `VOSFS_BLOCK_SIZE`
abbrev pub vosfs_block_size : ℕ
vosfs_block_size = 1 * 1024 * 1024

-- One round of the loop: the new block, the offset behind it and the size that is left.
unfoldable pub cut_block : ℕ → ℕ → ℕ → BlockInfo × ℕ × ℕ
cut_block file_size block_id offset =
    if leb vosfs_block_size file_size
    then (
      record {
        id = block_id;
        ino = 0;
        offset = offset;
        size = vosfs_block_size;
        data_node_id = [];
      },
      add64 offset vosfs_block_size,
      file_size - vosfs_block_size,
    )
    else (
      record { id = block_id; ino = 0; offset = offset; size = file_size; data_node_id = [] },
      add64 offset file_size,
      0,
    )

-- `while (file_size > 0)`, for so many rounds; no result is a loop that goes on.
unfoldable pub cut_blocks : ℕ → ℕ → ℕ → ℕ → Option (List BlockInfo)
unfolding cut_block
cut_blocks zero file_size block_id offset = none
cut_blocks (suc f) file_size block_id offset =
    let (block, next, left) = cut_block file_size block_id offset in
    let rest = cut_blocks f left (add64 block_id 1) next in
    if ltb 0 file_size then (rest >>= λ blocks. some (block ∷ blocks)) else some []

-- A round for each whole block, one for what is left, and one for the last test.
unfoldable pub split_file : ℕ → Option (List BlockInfo)
unfolding cut_blocks
split_file file_size = cut_blocks (file_size / vosfs_block_size + 2) file_size 0 0
