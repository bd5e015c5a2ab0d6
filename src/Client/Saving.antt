-- ===== src/Client/Saving.antt =====
-- The transfers in a file of the user: `save_transport_tasks_json` and `load_transport_tasks_json`.
-- No result is an exception.
use vosfs.Common.{
  ℕ, ◌∷◌, [], ◌++◌, List, Option, some, Str, utf8, if◌then◌else◌, empty, ◌>>=◌, int_to_string,
  ℕ_discrete,
}
use vosfs.Common.Map.{Map, emplace, values}
use vosfs.Client.Defs.{Client, Desktop, BlockTask, TransportTask}
use vosfs.Client.Transfers.{do_upload_task, do_download_task}
use vosfs.Json.{Json, Key, get_number, get_text, get_array}

module _ {J : Type 0} (json : Json J) where
  unfoldable pub block_json : BlockTask → J
  block_json block = json.object (
      (Key.remaing_times, json.number block.remaing_times)
      ∷ (Key.id, json.number block.id)
      ∷ (Key.ino, json.number block.ino)
      ∷ (Key.offset, json.number block.offset)
      ∷ (Key.size, json.number block.size)
      ∷ (Key.data_node_ids, json.flags block.data_node_ids)
      ∷ [])

  unfoldable pub blocks_json : List BlockTask → List J
  unfolding block_json
  blocks_json [] = []
  blocks_json (block ∷ blocks) = block_json block ∷ blocks_json blocks

  unfoldable pub task_json : TransportTask → J
  unfolding blocks_json
  task_json task = json.object (
      (Key.ino, json.number task.ino)
      ∷ (Key.total_blocks, json.number task.total_blocks)
      ∷ (Key.done_blocks, json.number task.done_blocks)
      ∷ (Key.local_path, json.text task.local_path)
      ∷ (Key.remote_path, json.text task.remote_path)
      ∷ (Key.blocks, json.array (blocks_json (values task.blocks)))
      ∷ [])

  unfoldable pub tasks_json : List TransportTask → List J
  unfolding task_json
  tasks_json [] = []
  tasks_json (task ∷ tasks) = task_json task ∷ tasks_json tasks

  unfoldable pub root_json : List TransportTask → List TransportTask → J
  unfolding tasks_json
  root_json uploads downloads = json.object (
      (Key.upload_tasks, json.array (tasks_json uploads))
      ∷ (Key.download_tasks, json.array (tasks_json downloads))
      ∷ [])

  unfoldable pub read_block : J → Option BlockTask
  read_block j = do
    remaing_times ← get_number json Key.remaing_times j
    id ← get_number json Key.id j
    ino ← get_number json Key.ino j
    offset ← get_number json Key.offset j
    size ← get_number json Key.size j
    data_node_ids ← (json.field Key.data_node_ids j >>= json.as_flags)
    some (record {
      remaing_times = remaing_times;
      id = id;
      ino = ino;
      offset = offset;
      size = size;
      data_node_ids = data_node_ids;
    })

  unfoldable pub read_blocks : List J → Map ℕ BlockTask → Option (Map ℕ BlockTask)
  unfolding read_block emplace
  read_blocks [] m = some m
  read_blocks (j ∷ js) m =
      read_block j >>= λ block. read_blocks js (emplace ℕ_discrete block.id block m)

  unfoldable pub read_task : J → Option TransportTask
  unfolding read_blocks
  read_task j = do
    ino ← get_number json Key.ino j
    total_blocks ← get_number json Key.total_blocks j
    done_blocks ← get_number json Key.done_blocks j
    local_path ← get_text json Key.local_path j
    remote_path ← get_text json Key.remote_path j
    js ← get_array json Key.blocks j
    blocks ← read_blocks js []
    some (record {
      ino = ino;
      total_blocks = total_blocks;
      done_blocks = done_blocks;
      local_path = local_path;
      remote_path = remote_path;
      blocks = blocks;
    })

  module _ {FS : Type 0} where
    -- The loop over the tasks of one kind; `start` goes on with a task.
    unfoldable pub read_tasks :
        (TransportTask → Client FS → Client FS)
        → List J
        → Map ℕ TransportTask
        → Client FS
        → Option (Map ℕ TransportTask × Client FS)
    unfolding read_task emplace
    read_tasks start [] m c = some (m, c)
    read_tasks start (j ∷ js) m c = read_task j >>= λ task.
        read_tasks start js (emplace ℕ_discrete task.ino task m) (start task c)

    abbrev pub tasks_path : Client FS → Str
    tasks_path c = int_to_string c.session.uid ++ utf8 "-transport_tasks.json"

  module _ {FS : Type 0} (desktop : Desktop FS) where
    -- `VosfsClient::save_transport_tasks_json`
    unfoldable pub save_transport_tasks_json : Client FS → Client FS
    unfolding root_json
    save_transport_tasks_json c = if empty c.session.token then c else record c {
      fs =
          desktop.save c.fs (tasks_path c)
            (json.dump (root_json (values c.upload_tasks) (values c.download_tasks)));
    }

    -- The file is made without tasks where it is missing.
    unfoldable pub ensure_file : Client FS → Client FS
    unfolding root_json
    ensure_file c =
        if desktop.exists c.fs (tasks_path c)
        then c
        else record c { fs = desktop.save c.fs (tasks_path c) (json.dump (root_json [] [])) }

    -- `VosfsClient::load_transport_tasks_json`
    unfoldable pub load_transport_tasks_json : Client FS → Option (Client FS)
    unfolding ensure_file read_tasks do_upload_task do_download_task
    load_transport_tasks_json c = do
      let ready = ensure_file c
      root ← json.parse (desktop.load ready.fs (tasks_path c))
      uploads ← get_array json Key.upload_tasks root
      (upload_tasks, uploading) ← read_tasks do_upload_task uploads [] ready
      downloads ← get_array json Key.download_tasks root
      (download_tasks, downloading) ← read_tasks do_download_task downloads [] uploading
      some (record downloading { upload_tasks = upload_tasks; download_tasks = download_tasks })
