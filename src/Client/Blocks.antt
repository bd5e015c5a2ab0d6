-- ===== src/Client/Blocks.antt =====
-- The handlers of the responses of storage nodes.
use vosfs.Common.{
  ℕ, ◌-◌, ◌++◌, true, none, some, utf8, if◌then◌else◌, leb, ltb, to_string, ◌==◌, ℕ_discrete, add64,
}
use vosfs.Common.Map.{access, put, erase}
use vosfs.Api.{UploadBlockResponse, DownloadBlockResponse}
use vosfs.StateMachine.Defs.{status_ok}
use vosfs.Client.Defs.{
  Client, Desktop, Job, BlockTask, TransportTask, RpcStatus, default_block, default_task, log,
  enqueue,
}

-- A block that a node has confirmed.
unfoldable pub confirm_block : ℕ → BlockTask → BlockTask
unfolding put
confirm_block data_node_id block = record block {
  remaing_times =
      if ltb 0 block.remaing_times then block.remaing_times - 1 else block.remaing_times;
  data_node_ids = put ℕ_discrete data_node_id true block.data_node_ids;
}

-- The task after the confirmation of one of its blocks.
unfoldable pub confirm_upload : ℕ → ℕ → TransportTask → TransportTask
unfolding confirm_block access put
confirm_upload block_id data_node_id task =
    let (blocks, block) = access ℕ_discrete block_id default_block task.blocks in
    let confirmed = confirm_block data_node_id block in
    record task {
      blocks = put ℕ_discrete block_id confirmed blocks;
      done_blocks =
          if confirmed.remaing_times == 0 then add64 task.done_blocks 1 else task.done_blocks;
    }

-- The task after one of its blocks was written.
unfoldable pub confirm_download : ℕ → BlockTask → TransportTask → TransportTask
unfolding put
confirm_download block_id block task = record task {
  blocks = put ℕ_discrete block_id (record block { remaing_times = 0 }) task.blocks;
  done_blocks = add64 task.done_blocks 1;
}

module _ {FS : Type 0} where
  -- `VosfsClient::handle_upload_block_response`
  unfoldable pub handle_upload_block_response :
      RpcStatus → UploadBlockResponse → Client FS → Client FS
  unfolding confirm_upload access put
  handle_upload_block_response status response c =
      if status.is_ok
      then if response.status_code == status_ok
        then (let (tasks, task) = access ℕ_discrete response.ino default_task c.upload_tasks in
            let confirmed = confirm_upload response.block_id response.data_node_id task in
            let kept = record c { upload_tasks = put ℕ_discrete response.ino confirmed tasks } in
            log response.message (
              if leb confirmed.total_blocks confirmed.done_blocks
              then enqueue (Job.send_upload_file confirmed.ino) kept
              else kept))
        else log response.message c
      else log status.message c

module _ {FS : Type 0} (desktop : Desktop FS) where
  -- The block of a download is written at its offset of the local file.
  unfoldable pub write_block :
      DownloadBlockResponse → TransportTask → BlockTask → Client FS → Client FS
  unfolding confirm_download put erase
  write_block response task block c =
      let (opened, failed) = desktop.open_write c.fs task.local_path in
      let c' = record c { fs = opened } in
      elim failed [
        | some error ↦ log (utf8 "文件 " ++ task.local_path ++ utf8 " 打开失败: " ++ error) c'
        | none ↦
            if desktop.seek opened task.local_path block.offset
            then (let (written, lost) =
                  desktop.write_all opened task.local_path block.offset response.bytes in
                let c'' = record c' { fs = written } in
                elim lost [
                  | some error ↦ log (utf8 "文件读取失败: " ++ error) c''
                  | none ↦
                      (let confirmed = confirm_download response.block_id block task in
                        let tasks = put ℕ_discrete response.ino confirmed c''.download_tasks in
                        log response.message (record c'' {
                          download_tasks =
                              if leb confirmed.total_blocks confirmed.done_blocks
                              then erase ℕ_discrete confirmed.ino tasks
                              else tasks;
                        }))
                ])
            else log (utf8 "文件 seek 失败 offset=" ++ to_string block.offset) c'
      ]

  -- `VosfsClient::handle_download_block_response`
  unfoldable pub handle_download_block_response :
      RpcStatus → DownloadBlockResponse → Client FS → Client FS
  unfolding access put write_block
  handle_download_block_response status response c =
      if status.is_ok
      then (let (tasks, task) = access ℕ_discrete response.ino default_task c.download_tasks in
          let (blocks, block) = access ℕ_discrete response.block_id default_block task.blocks in
          let found = record task { blocks = blocks } in
          let c' = record c { download_tasks = put ℕ_discrete response.ino found tasks } in
          if response.status_code == status_ok
          then write_block response found block c'
          else log response.message c')
      else log status.message c
