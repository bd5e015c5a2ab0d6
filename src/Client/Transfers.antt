-- ===== src/Client/Transfers.antt =====
-- The tasks of the transfers: `do_upload_task`, `do_download_task` and the handlers of the responses.
-- No result is an exception or a read outside of a container.
use vosfs.Common.{
  ℕ, ◌∷◌, [], ◌++◌, List, Bool, true, false, Option, none, some, Str, utf8, if◌then◌else◌, leb,
  length, ◌>>=◌, ◌==◌, ℕ_discrete, stoull,
}
use vosfs.Common.Map.{Map, find, values, emplace, erase}
use vosfs.Api.{
  BlockInfo, PrepareUploadFileResponse, UploadFileResponse, PrepareDownloadFileResponse,
}
use vosfs.StateMachine.Defs.{status_ok, status_not_leader}
use vosfs.Client.Defs.{Client, Job, Signal, BlockTask, TransportTask, RpcStatus, emit, log, enqueue}

-- The storage nodes of a block, none of them done.
unfoldable pub pending_nodes : List ℕ → Map ℕ Bool → Map ℕ Bool
unfolding emplace
pending_nodes [] m = m
pending_nodes (id ∷ ids) m = pending_nodes ids (emplace ℕ_discrete id false m)

unfoldable pub block_task : BlockInfo → BlockTask
unfolding pending_nodes
block_task block = record {
  remaing_times = length block.data_node_id;
  id = block.id;
  ino = block.ino;
  offset = block.offset;
  size = block.size;
  data_node_ids = pending_nodes block.data_node_id [];
}

unfoldable pub block_tasks : List BlockInfo → Map ℕ BlockTask → Map ℕ BlockTask
unfolding block_task emplace
block_tasks [] m = m
block_tasks (block ∷ blocks) m =
    block_tasks blocks (emplace ℕ_discrete block.id (block_task block) m)

-- The task of a response; it reads the first block, which has to be there.
unfoldable pub transport_task : Str → Str → List BlockInfo → Option TransportTask
unfolding block_tasks
transport_task local_path remote_path [] = none
transport_task local_path remote_path (block ∷ blocks) = some (record {
  ino = block.ino;
  total_blocks = length (block ∷ blocks);
  done_blocks = 0;
  local_path = local_path;
  remote_path = remote_path;
  blocks = block_tasks (block ∷ blocks) [];
})

-- The uploads of a block to the nodes that have not confirmed it.
abbrev pub block_uploads : Str → BlockTask → Map ℕ Bool → List Job
block_uploads path block [] = []
block_uploads path block ((id, true) ∷ m) = block_uploads path block m
block_uploads path block ((id, false) ∷ m) =
    Job.send_upload_block path block.id block.ino block.offset block.size id
    ∷ block_uploads path block m

unfoldable pub upload_jobs : Str → List BlockTask → List Job
upload_jobs path [] = []
upload_jobs path (block ∷ blocks) =
    (if block.remaing_times == 0 then [] else block_uploads path block block.data_node_ids)
    ++ upload_jobs path blocks

-- The download of a block from the first node that has not delivered it.
abbrev pub block_download : BlockTask → Map ℕ Bool → List Job
block_download block [] = []
block_download block ((id, true) ∷ m) = block_download block m
block_download block ((id, false) ∷ m) = Job.send_download_block block.id block.ino id ∷ []

unfoldable pub download_jobs : List BlockTask → List Job
download_jobs [] = []
download_jobs (block ∷ blocks) =
    (if block.remaing_times == 0 then [] else block_download block block.data_node_ids)
    ++ download_jobs blocks

module _ {FS : Type 0} where
  -- `VosfsClient::do_upload_task`
  unfoldable pub do_upload_task : TransportTask → Client FS → Client FS
  unfolding upload_jobs
  do_upload_task task c =
      if leb task.total_blocks task.done_blocks
      then enqueue (Job.send_upload_file task.ino) c
      else record c { tasks = c.tasks ++ upload_jobs task.local_path (values task.blocks) }

  -- `VosfsClient::do_download_task`
  unfoldable pub do_download_task : TransportTask → Client FS → Client FS
  unfolding erase find download_jobs
  do_download_task task c =
      let kept =
        if leb task.total_blocks task.done_blocks
        then record c { download_tasks = erase ℕ_discrete task.ino c.download_tasks }
        else c in
      elim (find ℕ_discrete task.done_blocks task.blocks) [
        | none ↦ kept
        | some block ↦ record kept { tasks = kept.tasks ++ download_jobs (values task.blocks) }
      ]

  -- The redirection to the leader that a response names.
  unfoldable pub redirect : Str → Client FS → Option (Client FS)
  unfolding stoull
  redirect message c = do
    id ← stoull message
    some (log (utf8 "重定向到集群领导者，请重试") (record c { leader_id = id }))

  -- `VosfsClient::handle_prepare_upload_file_response`
  unfoldable pub handle_prepare_upload_file_response :
      RpcStatus → PrepareUploadFileResponse → Client FS → Option (Client FS)
  unfolding redirect transport_task do_upload_task emplace
  handle_prepare_upload_file_response status response c =
      if status.is_ok
      then if response.status_code == status_not_leader
        then redirect response.message c
        else if response.status_code == status_ok
        then (do
          task ← transport_task response.local_path response.remote_path response.blocks
          let started = do_upload_task task c
          some (
              log response.message (record started {
                upload_tasks = emplace ℕ_discrete task.ino task started.upload_tasks;
              })))
        else some (log response.message c)
      else some (log status.message c)

  -- `VosfsClient::handle_prepare_download_file_response`
  unfoldable pub handle_prepare_download_file_response :
      RpcStatus → PrepareDownloadFileResponse → Client FS → Option (Client FS)
  unfolding redirect transport_task do_download_task emplace
  handle_prepare_download_file_response status response c =
      if status.is_ok
      then if response.status_code == status_not_leader
        then redirect response.message c
        else if response.status_code == status_ok
        then (do
          task ← transport_task response.local_path response.remote_path response.blocks
          let started = do_download_task task c
          some (
              log response.message (record started {
                download_tasks = emplace ℕ_discrete task.ino task started.download_tasks;
              })))
        else some (log response.message c)
      else some (log status.message c)

  -- `VosfsClient::handle_upload_file_response`
  unfoldable pub handle_upload_file_response :
      RpcStatus → UploadFileResponse → Client FS → Option (Client FS)
  unfolding redirect erase
  handle_upload_file_response status response c =
      if status.is_ok
      then if response.status_code == status_not_leader
        then redirect response.message c
        else (let told = emit (Signal.upload_file_finished (response.status_code == status_ok)) c in
            some (
              log response.message
                (record told { upload_tasks = erase ℕ_discrete response.ino told.upload_tasks })))
      else some (log status.message c)
