-- ===== src/StateMachine/Placement.antt =====
-- Where `prepare_upload_file` places the blocks of a file.
use mathlib.Core.List.{append_assoc}
use native.Mathlib.Nat.{mod-lt, mod-eq_of_lt, mod_self}
use vosfs.Common.{
  add64, dec_lt, ℕ, zero, suc, ◌+◌, ◌%◌, ◌<◌, ◌≤◌, ◌≡◌, ◌≢◌, refl, ◌∷◌, ◌++◌, [], List, false, some,
  arith, length, get_elem?, str_discrete,
}
use vosfs.Common.Map.{contains}
use vosfs.Api.{BlockInfo, PrepareUploadFileRequest, PrepareUploadFileResponse}
use vosfs.StateMachine.Defs.{NodeInfo, StateMachine, status_ok}
use vosfs.StateMachine.Queries.{place_block, place_blocks, prepare_upload_file, block_key}

-- `b` is placed as `c`: the block goes to the inode `ino`, to a node of the list, and to the next one in
-- the circle of the data nodes, which stands on another place if there are two or more.
pub record IsPlaced (nodes : List NodeInfo) (ino : ℕ) (b c : BlockInfo) : Type 0 where
  pub index : ℕ
  pub in_range : index < length nodes
  pub first_node : NodeInfo
  pub second_node : NodeInfo
  pub first_found : get_elem? nodes index ≡ some first_node
  pub second_found : get_elem? nodes ((index + 1) % length nodes) ≡ some second_node
  pub apart : 2 ≤ length nodes → (index + 1) % length nodes ≢ index
  pub same_block :
      c
      ≡ record b { ino = ino; data_node_id = b.data_node_id ++ first_node.id ∷ second_node.id ∷ [] }

abbrev pub ArePlaced : List NodeInfo → ℕ → List BlockInfo → List BlockInfo → Type 0
ArePlaced nodes ino [] [] = Unit
ArePlaced nodes ino (b ∷ bs) (c ∷ cs) = IsPlaced nodes ino b c × ArePlaced nodes ino bs cs
ArePlaced nodes ino _ _ = ⊥

get_elem?-total {ℓ} :
    {A : Type ℓ} (xs : List A) (i : ℕ) → i < length xs → (x : A) × (get_elem? xs i ≡ some x)
get_elem?-total [] i h = elim h [ ]
get_elem?-total (x ∷ xs) zero h = (x, refl)
get_elem?-total (x ∷ xs) (suc i) h = get_elem?-total xs i (omega arith)

length-pos {ℓ} : {A : Type ℓ} (xs : List A) → xs ≢ [] → 0 < length xs
length-pos [] h = absurd (h refl)
length-pos (x ∷ xs) h = omega arith

step_ne : (i n : ℕ) → i < n → 2 ≤ n → (i + 1) % n ≢ i
step_ne i n h k = elim (dec_lt (i + 1) n) [
  | yes p ↦ rw (mod-eq_of_lt p) (omega arith)
  | no p ↦ (let last : i + 1 ≡ n = omega arith in rw (last, mod_self) (omega arith))
]

module _ (hash : ℕ → ℕ) (nodes : List NodeInfo) (ino : ℕ) (some_node : nodes ≢ []) where
  nodes_pos : 0 < length nodes
  nodes_pos = length-pos nodes some_node

  place_block-total :
      (b : BlockInfo)
      → (c : BlockInfo) × (place_block hash nodes ino b ≡ some c) × IsPlaced nodes ino b c
  unfolding place_block
  place_block-total b =
      let start = hash (block_key ino b.id) % length nodes in
      let next = (start + 1) % length nodes in
      let (x, found) = get_elem?-total nodes start (mod-lt _ nodes_pos) in
      let (y, found') = get_elem?-total nodes next (mod-lt _ nodes_pos) in
      (
        record b { ino = ino; data_node_id = (b.data_node_id ++ x.id ∷ []) ++ y.id ∷ [] },
        ground (arith, nodes_pos, found, found'),
        record {
          index = start;
          in_range = mod-lt _ nodes_pos;
          first_node = x;
          second_node = y;
          first_found = found;
          second_found = found';
          apart = step_ne start (length nodes) (mod-lt _ nodes_pos);
          same_block = rw append_assoc;
        },
      )

  place_blocks-total :
      (bs : List BlockInfo)
      → (cs : List BlockInfo) × (place_blocks hash nodes ino bs ≡ some cs)
        × ArePlaced nodes ino bs cs
  unfolding place_blocks
  place_blocks-total [] = ([], refl, tt)
  place_blocks-total (b ∷ bs) =
      let (c, placed, is_placed) = place_block-total b in
      let (cs, rest, are_placed) = place_blocks-total bs in
      (c ∷ cs, rw (placed, rest), (is_placed, are_placed))

-- With at least one data node, prepare_upload_file at a new path always answers: every block of
-- the request comes back under the number that was next, with a data node and the one behind it
-- in the circle of the data nodes added to its own; with two data nodes or more these are on
-- different places of the list, with a single one both are that node. The number is used up,
-- and the tree stays as it was.
pub prepare_upload_file-ArePlaced :
    (hash : ℕ → ℕ) (s : StateMachine) (request : PrepareUploadFileRequest)
    (given : PrepareUploadFileResponse)
    → s.data_nodes ≢ []
    → contains str_discrete request.remote_path s.dir_entries ≡ false
    → (response : PrepareUploadFileResponse) × (prepare_upload_file hash s request given
        ≡ some (record s { next_ino = add64 s.next_ino 1 }, response))
      × ArePlaced s.data_nodes s.next_ino request.blocks response.blocks
      × (response.status_code ≡ status_ok)
unfolding prepare_upload_file
prepare_upload_file-ArePlaced hash s request given some_node new =
    let (cs, placed, are_placed) =
      place_blocks-total hash s.data_nodes s.next_ino some_node request.blocks in
    (
      record given {
        local_path = request.local_path;
        remote_path = request.remote_path;
        blocks = cs;
        status_code = status_ok;
      },
      rw (new, placed),
      are_placed,
      refl,
    )
