-- ===== src/Client/Completion.antt =====
-- An upload comes to its end: the confirmations of its blocks, in any order.
use vosfs.Common.{
  ℕ, zero, suc, ◌+◌, ◌≡◌, ◌<◌, refl, ap, ◌∙◌, sym, ◌∷◌, [], ◌++◌, true, false, some, arith, length,
  All, if◌then◌else◌, ◌==◌, ℕ_discrete, subst, some-same,
}
use vosfs.Common.Map.{Map, find, put, find-put}
use vosfs.Api.{UploadBlockResponse}
use vosfs.StateMachine.Defs.{status_ok}
use vosfs.Client.Defs.{Client, Job, BlockTask, TransportTask, RpcStatus}
use vosfs.Client.Blocks.{confirm_block, confirm_upload, handle_upload_block_response}
use vosfs.Client.Confirmations.{
  missing, finished, IsCounted, BlockIsCounted, finished-le, missing-put, confirmed_task,
  handle_upload_block_response-IsCounted,
}

-- The confirmations that a task waits for.
unfoldable pub outstanding : Map ℕ BlockTask → ℕ
unfolding missing
outstanding [] = 0
outstanding ((id, block) ∷ m) = missing block.data_node_ids + outstanding m

outstanding-put :
    (id : ℕ) (old new : BlockTask) (m : Map ℕ BlockTask)
    → find ℕ_discrete id m ≡ some old
    → outstanding (put ℕ_discrete id new m) + missing old.data_node_ids
      ≡ outstanding m + missing new.data_node_ids
unfolding outstanding put find
outstanding-put id old new [] h = absurd (cc)
outstanding-put id old new ((j, b) ∷ m) h = ground (arith, outstanding-put id old new m)

-- Where nothing is waited for, every block is finished, and only there.
outstanding-finished :
    (m : Map ℕ BlockTask)
    → All BlockIsCounted m
    → (outstanding m ≡ 0 → finished m ≡ length m) × (0 < outstanding m → finished m < length m)
unfolding outstanding finished
outstanding-finished [] h = (λ e. refl, λ e. absurd (omega arith))
outstanding-finished ((j, b) ∷ m) h = (
  ground (arith, outstanding-finished m h.1, finished-le m),
  ground (arith, outstanding-finished m h.1, finished-le m),
)

-- So many confirmations of blocks of an upload, each by a node that had not confirmed its block.
pub data Confirms {FS : Type 0} (ino : ℕ) (c : Client FS) : ℕ → Client FS → Type 0 where
  here : Confirms ino c zero c
  next :
      {n : ℕ} {c' : Client FS} (status : RpcStatus) (response : UploadBlockResponse)
      (task : TransportTask) (block : BlockTask)
      → Confirms ino c n c'
      → status.is_ok ≡ true
      → response.status_code ≡ status_ok
      → response.ino ≡ ino
      → find ℕ_discrete ino c'.upload_tasks ≡ some task
      → find ℕ_discrete response.block_id task.blocks ≡ some block
      → find ℕ_discrete response.data_node_id block.data_node_ids ≡ some false
      → Confirms ino c (suc n) (handle_upload_block_response status response c')

confirm_upload-outstanding :
    (id node : ℕ) (block : BlockTask) (task : TransportTask)
    → find ℕ_discrete id task.blocks ≡ some block
    → find ℕ_discrete node block.data_node_ids ≡ some false
    → outstanding task.blocks ≡ suc (outstanding (confirm_upload id node task).blocks)
unfolding confirm_block
confirm_upload-outstanding id node block task known pending = ground (
  arith,
  confirmed_task id node block task known,
  outstanding-put id block (confirm_block node block) task.blocks known,
  missing-put node block.data_node_ids pending,
)

-- What is known of the upload after some confirmations.
record Waits {FS : Type 0} (ino : ℕ) (c : Client FS) (task : TransportTask) (n : ℕ) (c' : Client FS)
    : Type 0 where
  now : TransportTask
  known : find ℕ_discrete ino c'.upload_tasks ≡ some now
  right : IsCounted now
  left : outstanding now.blocks + n ≡ outstanding task.blocks
  same_ino : now.ino ≡ task.ino
  queue : c'.tasks ≡ (
      if outstanding now.blocks == 0
      then c.tasks ++ Job.send_upload_file task.ino ∷ []
      else c.tasks)

module _ {FS : Type 0} (ino : ℕ) (c : Client FS) (task : TransportTask)
    (known : find ℕ_discrete ino c.upload_tasks ≡ some task) (right : IsCounted task)
    (more : 0 < outstanding task.blocks) where
  Confirms-Waits : {n : ℕ} {c' : Client FS} → Confirms ino c n c' → Waits ino c task n c'
  Confirms-Waits here = record {
    now = task;
    known = known;
    right = right;
    left = omega arith;
    same_ino = refl;
    queue = ground arith;
  }
  Confirms-Waits
        (next {n = n} {c' = c'} status response now block run is_ok ok same found this pending) =
      let w = Confirms-Waits run in
      let same_task : w.now ≡ now = some-same (sym w.known ∙ found) in
      let right' : IsCounted now = subst IsCounted same_task w.right in
      let found' = subst (λ i. find ℕ_discrete i c'.upload_tasks ≡ some now) (sym same) found in
      let new = confirm_upload response.block_id response.data_node_id now in
      let (counted, written, queued) =
        handle_upload_block_response-IsCounted status response c' now block is_ok ok found' this
          right' pending in
      let fewer =
        confirm_upload-outstanding response.block_id response.data_node_id block now this pending in
      let left' : outstanding now.blocks + n ≡ outstanding task.blocks = rw same_task at w.left in
      let ino' : now.ino ≡ task.ino = rw same_task at w.same_ino in
      let before : c'.tasks ≡ c.tasks = ground (arith, w.queue, same_task, fewer) in
      record {
        now = new;
        known =
            ground (arith, written, same, find-put ℕ_discrete response.ino ino new c'.upload_tasks);
        right = counted;
        left = omega (arith, fewer, left');
        same_ino =
            ap (λ (t : TransportTask). t.ino)
              (confirmed_task response.block_id response.data_node_id block now this)
            ∙ ino';
        queue =
            ground (arith, queued, before, ino', outstanding-finished new.blocks counted.counted);
      }

  -- A task of an upload that is right and waits for at least one confirmation: as long as fewer
  -- confirmations came than it waits for, each by a node that had not confirmed its block, nothing is
  -- put into the queue. With the last of them, in whatever order they come, the request that ends the
  -- upload is put into the queue, once.
  pub Confirms-tasks :
      (n : ℕ) (c' : Client FS)
      → Confirms ino c n c'
      → (n < outstanding task.blocks → c'.tasks ≡ c.tasks)
        × (n ≡ outstanding task.blocks → c'.tasks ≡ c.tasks ++ Job.send_upload_file task.ino ∷ [])
  Confirms-tasks n c' run =
      let w = Confirms-Waits run in
      (ground (arith, w.queue, w.left), ground (arith, w.queue, w.left))
