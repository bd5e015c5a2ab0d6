-- ===== src/Client/Deliveries.antt =====
-- The answers of storage nodes that the client writes into a local file.
use vosfs.Common.{
  ℕ, ◌+◌, ◌≡◌, ◌≤◌, ◌<◌, ◌∷◌, [], List, true, none, some, Str, arith, length, if◌then◌else◌, leb,
  ℕ_discrete,
}
use vosfs.Common.Map.{Map, find, put, access, erase, find-put}
use vosfs.Api.{BlockInfo, DownloadBlockResponse}
use vosfs.StateMachine.Defs.{status_ok}
use vosfs.Client.Defs.{Client, Desktop, BlockTask, TransportTask, RpcStatus}
use vosfs.Client.Blocks.{confirm_download, write_block, handle_download_block_response}
use vosfs.Client.Tiling.{piece}

-- The task knows a block under its number, at its offset.
abbrev pub Knows : TransportTask → BlockInfo → Type 0
Knows task b =
    (block : BlockTask) × (find ℕ_discrete b.id task.blocks ≡ some block)
    × (block.offset ≡ b.offset)

module _ {FS : Type 0} (desktop : Desktop FS) where
  -- The three calls on the local file succeed.
  abbrev pub Succeeds : FS → Str → BlockInfo → Str → Type 0
  Succeeds fs path b bytes =
      (let opened = (desktop.open_write fs path).0 in
        ((desktop.open_write fs path).1 ≡ none)
        × (desktop.seek opened path b.offset ≡ true)
        × ((desktop.write_all opened path b.offset bytes).1 ≡ none))

  -- The successful answers to a download, each with the bytes of a block of the content, that the
  -- client has written: the blocks, the last one first.
  pub data Downloads (content : Str) (task : TransportTask) (c : Client FS)
      : List BlockInfo → Client FS → Type 0 where
    here : Downloads content task c [] c
    next :
        {received : List BlockInfo} {c' : Client FS} (status : RpcStatus)
        (response : DownloadBlockResponse) (b : BlockInfo)
        → Downloads content task c received c'
        → status.is_ok ≡ true
        → response.status_code ≡ status_ok
        → response.ino ≡ task.ino
        → response.block_id ≡ b.id
        → response.bytes ≡ piece content b
        → Knows task b
        → (0 < b.size) × (b.offset + b.size ≤ length content)
        → Succeeds c'.fs task.local_path b response.bytes
        → Downloads content task c
            (b ∷ received)
            (handle_download_block_response desktop status response c')

  -- One answer, where the client has the task.
  pub handled :
      (status : RpcStatus) (response : DownloadBlockResponse) (b : BlockInfo) (task : TransportTask)
      (block : BlockTask) (c : Client FS) (ino : ℕ) (path : Str)
      → status.is_ok ≡ true
      → response.status_code ≡ status_ok
      → response.ino ≡ ino
      → task.local_path ≡ path
      → find ℕ_discrete ino c.download_tasks ≡ some task
      → response.block_id ≡ b.id
      → find ℕ_discrete b.id task.blocks ≡ some block
      → block.offset ≡ b.offset
      → Succeeds c.fs path b response.bytes
      → (let opened = (desktop.open_write c.fs path).0 in
          let confirmed = confirm_download b.id block task in
          let tasks = put ℕ_discrete ino confirmed (put ℕ_discrete ino task c.download_tasks) in
          ((handle_download_block_response desktop status response c).fs
            ≡ (desktop.write_all opened path b.offset response.bytes).0)
          × ((handle_download_block_response desktop status response c).download_tasks ≡ (
              if leb confirmed.total_blocks confirmed.done_blocks
              then erase ℕ_discrete confirmed.ino tasks
              else tasks)))
  unfolding handle_download_block_response write_block access
  handled status response b task block c ino path is_ok ok same_ino same_path found same known at
        (opens, seeks, writes) =
      (ground arith, ground arith)

pub Knows-confirm_download :
    (id : ℕ) (block : BlockTask) (task : TransportTask) (b : BlockInfo)
    → find ℕ_discrete id task.blocks ≡ some block
    → Knows task b
    → Knows (confirm_download id block task) b
unfolding confirm_download
Knows-confirm_download id block task b known (old, found, at) = elim (ℕ_discrete id b.id) [
  | yes same ↦ (
    record block { remaing_times = 0 },
    ground (arith, find-put ℕ_discrete id b.id (record block { remaing_times = 0 }) task.blocks),
    ground arith,
  )
  | no other ↦ (
    old,
    ground (arith, find-put ℕ_discrete id b.id (record block { remaing_times = 0 }) task.blocks),
    at,
  )
]

-- The task after so many answers.
pub record IsAt (task : TransportTask) (tasks : Map ℕ TransportTask) (n : ℕ) : Type 0 where
  pub now : TransportTask
  pub found : find ℕ_discrete task.ino tasks ≡ some now
  pub same_ino : now.ino ≡ task.ino
  pub same_path : now.local_path ≡ task.local_path
  pub same_total : now.total_blocks ≡ task.total_blocks
  pub done : now.done_blocks ≡ n
  pub knows : (b : BlockInfo) → Knows task b → Knows now b
