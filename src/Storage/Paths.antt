-- ===== src/Storage/Paths.antt =====
-- The files of different blocks of one storage node are different.
use vosfs.Common.{
  ℕ, ◌≡◌, ◌∷◌, to_string, to_string-injective, to_string-dash, cut-injective, append_cancel,
  str_discrete, arith, [],
}
use vosfs.Storage.Defs.{DataNode, slash_dir, block_name, get_block_path}

block_name-injective :
    (ino ino' block_id block_id' : ℕ)
    → block_name ino block_id ≡ block_name ino' block_id'
    → (ino ≡ ino') × (block_id ≡ block_id')
block_name-injective ino ino' block_id block_id' e =
    let (same_ino, same_id) =
      cut-injective b'-' (to_string ino) (to_string ino') (to_string block_id) (to_string block_id')
        (to_string-dash ino) (to_string-dash ino') e in
    (to_string-injective ino ino' same_ino, to_string-injective block_id block_id' same_id)

-- Two blocks whose files have the same path are the same block of the same inode.
pub get_block_path-injective :
    (node : DataNode) (ino ino' block_id block_id' : ℕ)
    → get_block_path node ino block_id ≡ get_block_path node ino' block_id'
    → (ino ≡ ino') × (block_id ≡ block_id')
unfolding get_block_path
get_block_path-injective node ino ino' block_id block_id' e =
    let name = block_name ino block_id in
    let name' = block_name ino' block_id' in
    elim (str_discrete node.block_dir slash_dir) [
      | yes root ↦
          block_name-injective ino ino' block_id block_id'
            (append_cancel node.block_dir name name' (ground arith))
      | no other ↦ block_name-injective ino ino' block_id block_id' (
          append_cancel (b'/' ∷ []) name name'
            (append_cancel node.block_dir (b'/' ∷ name) (b'/' ∷ name') (ground arith)))
    ]
