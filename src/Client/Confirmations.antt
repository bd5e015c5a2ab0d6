-- ===== src/Client/Confirmations.antt =====
-- The count of the blocks of an upload that all of their storage nodes have confirmed.
use vosfs.Common.{
  ℕ, suc, ◌+◌, ◌≡◌, ◌≤◌, ◌<◌, ap, ◌∙◌, sym, ◌∷◌, [], ◌++◌, Bool, true, false, some, arith, u64_mod,
  add64, length, All, if◌then◌else◌, ◌==◌, leb, ℕ_discrete, subst,
}
use vosfs.Common.Map.{Map, find, put, access}
use vosfs.Api.{UploadBlockResponse}
use vosfs.StateMachine.Defs.{status_ok}
use vosfs.Client.Defs.{Client, Job, BlockTask, TransportTask, RpcStatus, log, enqueue}
use vosfs.Client.Blocks.{confirm_block, confirm_upload, handle_upload_block_response}

-- How many nodes have not confirmed, and how many blocks need no more confirmation.
unfoldable pub missing : Map ℕ Bool → ℕ
missing [] = 0
missing ((id, true) ∷ m) = missing m
missing ((id, false) ∷ m) = suc (missing m)

unfoldable pub finished : Map ℕ BlockTask → ℕ
finished [] = 0
finished ((id, block) ∷ m) = if block.remaing_times == 0 then suc (finished m) else finished m

abbrev pub BlockIsCounted : ℕ × BlockTask → Type 0
BlockIsCounted (id, block) = block.remaing_times ≡ missing block.data_node_ids

-- The counts of a task are those of its blocks and nodes.
pub record IsCounted (task : TransportTask) : Type 0 where
  pub counted : All BlockIsCounted task.blocks
  pub done : task.done_blocks ≡ finished task.blocks
  pub total : task.total_blocks ≡ length task.blocks
  pub room : length task.blocks < u64_mod

pub missing-put :
    (id : ℕ) (m : Map ℕ Bool)
    → find ℕ_discrete id m ≡ some false
    → missing m ≡ suc (missing (put ℕ_discrete id true m))
unfolding missing put find
missing-put id [] h = absurd (cc)
missing-put id ((j, true) ∷ m) h = ground (arith, missing-put id m)
missing-put id ((j, false) ∷ m) h = ground (arith, missing-put id m)

pub finished-le : (m : Map ℕ BlockTask) → finished m ≤ length m
unfolding finished
finished-le [] = omega arith
finished-le ((j, b) ∷ m) = ground (arith, finished-le m)

-- A write to a block that is there.
finished-put :
    (id : ℕ) (old new : BlockTask) (m : Map ℕ BlockTask)
    → find ℕ_discrete id m ≡ some old
    → finished (put ℕ_discrete id new m) + (if old.remaing_times == 0 then 1 else 0)
      ≡ finished m + (if new.remaing_times == 0 then 1 else 0)
unfolding finished put find
finished-put id old new [] h = absurd (cc)
finished-put id old new ((j, b) ∷ m) h = ground (arith, finished-put id old new m)

pub length-put :
    {V : Type 0} (id : ℕ) (old new : V) (m : Map ℕ V)
    → find ℕ_discrete id m ≡ some old
    → length (put ℕ_discrete id new m) ≡ length m
unfolding put find
length-put id old new [] h = absurd (cc)
length-put id old new ((j, b) ∷ m) h = ground (arith, length-put id old new m)

All-put :
    (id : ℕ) (new : BlockTask) (m : Map ℕ BlockTask)
    → new.remaing_times ≡ missing new.data_node_ids
    → All BlockIsCounted m
    → All BlockIsCounted (put ℕ_discrete id new m)
unfolding put
All-put id new [] h hs = (h, tt)
All-put id new ((j, b) ∷ m) h hs = ground (arith, All-put id new m h hs.1)

pub find-IsCounted :
    (id : ℕ) (block : BlockTask) (m : Map ℕ BlockTask)
    → All BlockIsCounted m
    → find ℕ_discrete id m ≡ some block
    → block.remaing_times ≡ missing block.data_node_ids
unfolding find
find-IsCounted id block [] hs e = absurd (cc)
find-IsCounted id block ((j, b) ∷ m) hs e = ground (arith, find-IsCounted id block m hs.1)

-- The confirmation of a block that is there.
pub confirmed_task :
    (id node : ℕ) (block : BlockTask) (task : TransportTask)
    → find ℕ_discrete id task.blocks ≡ some block
    → confirm_upload id node task ≡ (
        let confirmed = confirm_block node block in
        record task {
          blocks = put ℕ_discrete id confirmed task.blocks;
          done_blocks =
              if confirmed.remaing_times == 0 then add64 task.done_blocks 1 else task.done_blocks;
        })
unfolding confirm_upload access
confirmed_task id node block task e = ground arith

-- A confirmation of a block by a node of the block that has not confirmed it keeps the counts of the
-- task right.
pub confirm_upload-IsCounted :
    (id node : ℕ) (block : BlockTask) (task : TransportTask)
    → IsCounted task
    → find ℕ_discrete id task.blocks ≡ some block
    → find ℕ_discrete node block.data_node_ids ≡ some false
    → IsCounted (confirm_upload id node task)
unfolding confirm_block
confirm_upload-IsCounted id node block task h here pending =
    let fewer = missing-put node block.data_node_ids pending in
    let right = find-IsCounted id block task.blocks h.counted here in
    let new = confirm_block node block in
    subst IsCounted (sym (confirmed_task id node block task here)) (record {
      counted = All-put id new task.blocks (ground arith) h.counted;
      done = ground (
        arith,
        finished-put id block new task.blocks here,
        h.done,
        h.room,
        finished-le (put ℕ_discrete id new task.blocks),
        length-put id block new task.blocks here,
      );
      total = h.total ∙ sym (length-put id block new task.blocks here);
      room = omega (arith, length-put id block new task.blocks here, h.room);
    })

-- What the handler of a confirmation does to a task that is there.
response_of :
    {FS : Type 0} (status : RpcStatus) (response : UploadBlockResponse) (c : Client FS)
    (task : TransportTask)
    → status.is_ok ≡ true
    → response.status_code ≡ status_ok
    → find ℕ_discrete response.ino c.upload_tasks ≡ some task
    → handle_upload_block_response status response c ≡ (
        let confirmed = confirm_upload response.block_id response.data_node_id task in
        let kept = record c {
          upload_tasks = put ℕ_discrete response.ino confirmed c.upload_tasks;
        } in
        log response.message (
          if leb confirmed.total_blocks confirmed.done_blocks
          then enqueue (Job.send_upload_file confirmed.ino) kept
          else kept))
unfolding handle_upload_block_response access
response_of status response c task is_ok ok here = ground arith

module _ {FS : Type 0} (status : RpcStatus) (response : UploadBlockResponse) (c : Client FS)
    (task : TransportTask) (block : BlockTask) (is_ok : status.is_ok ≡ true)
    (ok : response.status_code ≡ status_ok)
    (known : find ℕ_discrete response.ino c.upload_tasks ≡ some task)
    (here : find ℕ_discrete response.block_id task.blocks ≡ some block) where
  abbrev pub after_task : TransportTask
  after_task = confirm_upload response.block_id response.data_node_id task

  abbrev pub after_client : Client FS
  after_client = handle_upload_block_response status response c

  same_ino : after_task.ino ≡ task.ino
  same_ino =
      ap (λ (t : TransportTask). t.ino)
        (confirmed_task response.block_id response.data_node_id block task here)

  -- A task that is right counts a confirmation by a node that had not confirmed the block, and stays
  -- right. The request that ends the upload is put into the queue exactly when no block needs a
  -- confirmation any more.
  pub handle_upload_block_response-IsCounted :
      IsCounted task
      → find ℕ_discrete response.data_node_id block.data_node_ids ≡ some false
      → IsCounted after_task
        × (after_client.upload_tasks ≡ put ℕ_discrete response.ino after_task c.upload_tasks)
        × (after_client.tasks ≡ (
            if finished after_task.blocks == length after_task.blocks
            then c.tasks ++ Job.send_upload_file task.ino ∷ []
            else c.tasks))
  handle_upload_block_response-IsCounted h pending =
      let right =
        confirm_upload-IsCounted response.block_id response.data_node_id block task h here
          pending in
      let handled = response_of status response c task is_ok ok known in
      (
        right,
        ground (arith, handled),
        ground (arith, handled, right.total, right.done, finished-le after_task.blocks, same_ino),
      )

  -- A confirmation of a block that needs none any more is counted again: where all blocks but one are
  -- finished, the request that ends the upload is put into the queue though one block is not.
  pub handle_upload_block_response-repeated :
      IsCounted task
      → block.remaing_times ≡ 0
      → finished task.blocks + 1 ≡ length task.blocks
      → (after_client.tasks ≡ c.tasks ++ Job.send_upload_file task.ino ∷ [])
        × (finished after_task.blocks < length after_task.blocks)
  unfolding confirm_block
  handle_upload_block_response-repeated h none_left one_left =
      let id = response.block_id in
      let new = confirm_block response.data_node_id block in
      let confirmed = confirmed_task id response.data_node_id block task here in
      let again : new.remaing_times ≡ 0 = ground arith in
      let count = finished-put id block new task.blocks here in
      let size = length-put id block new task.blocks here in
      (
        ground (
          arith,
          response_of status response c task is_ok ok known,
          confirmed,
          again,
          same_ino,
          h.total,
          h.done,
          h.room,
        ),
        ground (arith, confirmed, again, count, size),
      )
