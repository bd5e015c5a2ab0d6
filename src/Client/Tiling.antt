-- ===== src/Client/Tiling.antt =====
-- The blocks that a file is cut into.
use vosfs.Common.{
  ℕ, zero, suc, ◌+◌, ◌-◌, ◌/◌, ◌≤◌, ◌<◌, ◌≡◌, ◌≢◌, refl, ap, ◌∙◌, sym, ◌∷◌, [], ◌++◌, List, some,
  Str, arith, u64_mod, length, take, drop, add64, ◌>>=◌, some-same, take-drop, take-length, dec_lt,
  dec_le, lt→ltb, le→leb,
}
use mathlib.Core.List.{append-nil, append_assoc}
use vosfs.Api.{BlockInfo}
use vosfs.Client.Splitting.{vosfs_block_size, cut_block, cut_blocks, split_file}

-- The blocks from a number and an offset on, up to the end of the file: each carries the next
-- number and the offset behind the one before, is not empty, holds a whole block's size unless it
-- is the last, and never more.
abbrev pub Tiles : ℕ → ℕ → ℕ → List BlockInfo → Type 0
Tiles id offset end [] = offset ≡ end
Tiles id offset end (block ∷ blocks) =
    (block.id ≡ id)
    × (block.offset ≡ offset)
    × (0 < block.size)
    × (block.size ≤ vosfs_block_size)
    × (blocks ≢ [] → block.size ≡ vosfs_block_size)
    × (block.offset + block.size ≤ end)
    × Tiles (id + 1) (block.offset + block.size) end blocks

abbrev AreCut : ℕ → ℕ → ℕ → ℕ → Type 0
AreCut f size id offset =
    (blocks : List BlockInfo) × (cut_blocks f size id offset ≡ some blocks)
    × (length blocks ≡ (size + vosfs_block_size - 1) / vosfs_block_size)
    × Tiles id offset (offset + size) blocks

abbrev new_block : ℕ → ℕ → ℕ → BlockInfo
new_block id offset size = record {
  id = id;
  ino = 0;
  offset = offset;
  size = size;
  data_node_id = [];
}

-- A round where a whole block is left, and one where less is left.
cut_blocks-whole :
    (f size id offset : ℕ)
    → vosfs_block_size ≤ size
    → offset + size < u64_mod
    → id + size < u64_mod
    → cut_blocks (suc f) size id offset ≡ (
        cut_blocks f (size - vosfs_block_size) (id + 1) (offset + vosfs_block_size) >>= λ blocks.
        some (new_block id offset vosfs_block_size ∷ blocks))
unfolding cut_blocks cut_block
cut_blocks-whole f size id offset whole room ids =
    let next : add64 offset vosfs_block_size ≡ offset + vosfs_block_size = omega arith in
    let number : add64 id 1 ≡ id + 1 = omega arith in
    rw (le→leb vosfs_block_size size whole, lt→ltb 0 size (omega arith), next, number) refl

cut_blocks-last :
    (f size id offset : ℕ)
    → 0 < size
    → size < vosfs_block_size
    → cut_blocks (suc (suc f)) size id offset ≡ some (new_block id offset size ∷ [])
unfolding cut_blocks cut_block
cut_blocks-last f size id offset more rest = ground arith

cut_blocks-Tiles :
    (f size id offset : ℕ)
    → size / vosfs_block_size + 1 < f
    → offset + size < u64_mod
    → id + size < u64_mod
    → AreCut f size id offset
unfolding cut_blocks
cut_blocks-Tiles zero size id offset enough room ids = absurd (omega arith)
cut_blocks-Tiles (suc zero) size id offset enough room ids = absurd (omega arith)
cut_blocks-Tiles (suc (suc f)) size id offset enough room ids =
    elim (dec_le vosfs_block_size size) [
      | yes whole ↦
          (let (blocks, cut, count, tiles) =
              cut_blocks-Tiles (suc f) (size - vosfs_block_size) (id + 1)
                (offset + vosfs_block_size) (omega arith) (omega arith) (omega arith) in
            let end : offset + vosfs_block_size + (size - vosfs_block_size) ≡ offset + size =
              omega arith in
            (
              new_block id offset vosfs_block_size ∷ blocks,
              cut_blocks-whole (suc f) size id offset whole room ids ∙ rw cut refl,
              omega arith,
              (refl, refl, omega arith, omega arith, λ more. refl, omega arith, rw end at tiles),
            ))
      | no less ↦ elim (dec_lt 0 size) [
        | yes more ↦ (
          new_block id offset size ∷ [],
          cut_blocks-last f size id offset more (omega arith),
          omega arith,
          (refl, refl, more, omega arith, λ h. absurd (h refl), omega arith, refl),
        )
        | no none_left ↦ ([], ground arith, omega arith, omega arith)
      ]
    ]

-- For every size below the last 64-bit number the loop ends: the file is cut into as many blocks as
-- its size holds, a last part that is smaller counted as one.
pub split_file-length :
    (size : ℕ)
    → size < u64_mod
    → (blocks : List BlockInfo) × (split_file size ≡ some blocks)
      × (length blocks ≡ (size + vosfs_block_size - 1) / vosfs_block_size)
unfolding split_file
split_file-length size room =
    let (blocks, cut, count, tiles) =
      cut_blocks-Tiles (size / vosfs_block_size + 2) size 0 0 (omega arith) (omega arith)
        (omega arith) in
    (blocks, cut, count)

-- The blocks of a file below the last 64-bit number carry the numbers from 0 on, each starts where
-- the one before it ends, the first at 0 and the last ends at the size of the file, none is empty or
-- larger than a whole block, and all but the last are whole.
pub split_file-Tiles :
    (size : ℕ) (blocks : List BlockInfo)
    → size < u64_mod
    → split_file size ≡ some blocks
    → Tiles 0 0 size blocks
unfolding split_file
split_file-Tiles size blocks room e =
    let (found, cut, count, tiles) =
      cut_blocks-Tiles (size / vosfs_block_size + 2) size 0 0 (omega arith) (omega arith)
        (omega arith) in
    let same : found ≡ blocks = some-same (sym cut ∙ e) in
    let end : 0 + size ≡ size = omega arith in rw (same, end) at tiles

-- The bytes of a file that a block stands for.
abbrev pub piece : Str → BlockInfo → Str
piece content block = take block.size (drop block.offset content)

abbrev pub pieces : Str → List BlockInfo → Str
pieces content [] = []
pieces content (block ∷ blocks) = piece content block ++ pieces content blocks

pieces-Tiles :
    (content : Str) (id offset : ℕ) (blocks : List BlockInfo)
    → Tiles id offset (length content) blocks
    → take offset content ++ pieces content blocks ≡ content
pieces-Tiles content id offset [] h =
    append-nil (take offset content) ∙ ap (λ n. take n content) h ∙ take-length content
pieces-Tiles content id offset (block ∷ blocks) h =
    let rest = pieces content blocks in
    let at : block.offset ≡ offset = h.1 in
    let joined : take offset content ++ piece content block
        ≡ take (block.offset + block.size) content =
      rw at (take-drop offset block.size content) in
    sym (append_assoc (take offset content) (piece content block) rest)
    ∙ ap (λ s. s ++ rest) joined
    ∙ pieces-Tiles content (id + 1) (block.offset + block.size) blocks h.6

-- The blocks of a file below the last 64-bit number, read one after the other, are the whole file.
pub pieces-split_file :
    (content : Str) (blocks : List BlockInfo)
    → length content < u64_mod
    → split_file (length content) ≡ some blocks
    → pieces content blocks ≡ content
pieces-split_file content blocks room e =
    pieces-Tiles content 0 0 blocks (split_file-Tiles (length content) blocks room e)
