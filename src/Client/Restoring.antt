-- ===== src/Client/Restoring.antt =====
-- The transfers that were saved are loaded again.
use vosfs.Common.{
  ℕ, ◌≡◌, refl, ap, ◌∙◌, sym, ◌∷◌, [], ◌++◌, List, true, false, some, Str, arith, All, empty, ◌>>=◌,
  ℕ_discrete, subst, utf8, int_to_string,
}
use vosfs.Common.Map.{Map, find, emplace, values}
use vosfs.Common.Reading.{Agrees, Loaded, Loaded-nil, Loaded-cons}
use vosfs.Client.Defs.{Client, Desktop, BlockTask, TransportTask}
use vosfs.Client.Transfers.{do_upload_task, do_download_task}
use vosfs.Json.{Json, JsonLaws, Key, lookup}
use vosfs.Client.Saving.{
  block_json, blocks_json, task_json, tasks_json, root_json, read_block, read_blocks, read_task,
  read_tasks, tasks_path, save_transport_tasks_json, load_transport_tasks_json, ensure_file,
}

-- Blocks that differ at most in the order of their nodes.
abbrev pub SameBlock : BlockTask → BlockTask → Type 0
SameBlock a b =
    (a.remaing_times ≡ b.remaing_times)
    × (a.id ≡ b.id)
    × (a.ino ≡ b.ino)
    × (a.offset ≡ b.offset)
    × (a.size ≡ b.size)
    × ((k : ℕ) → find ℕ_discrete k a.data_node_ids ≡ find ℕ_discrete k b.data_node_ids)

-- Tasks that differ at most in the order of their blocks and nodes.
abbrev pub SameTask : TransportTask → TransportTask → Type 0
SameTask a b =
    (a.ino ≡ b.ino)
    × (a.total_blocks ≡ b.total_blocks)
    × (a.done_blocks ≡ b.done_blocks)
    × (a.local_path ≡ b.local_path)
    × (a.remote_path ≡ b.remote_path)
    × ((k : ℕ) → Agrees SameBlock (find ℕ_discrete k b.blocks) (find ℕ_discrete k a.blocks))

module _ {J : Type 0} (json : Json J) (laws : JsonLaws json) where
  read_block-block_json :
      (b : BlockTask)
      → (b' : BlockTask) × (read_block json (block_json json b) ≡ some b') × SameBlock b' b
  unfolding read_block block_json
  read_block-block_json b =
      let (nodes, read, same) = laws.flags_lem b.data_node_ids in
      let fields : List (Key × J) =
        (Key.remaing_times, json.number b.remaing_times)
        ∷ (Key.id, json.number b.id)
        ∷ (Key.ino, json.number b.ino)
        ∷ (Key.offset, json.number b.offset)
        ∷ (Key.size, json.number b.size)
        ∷ (Key.data_node_ids, json.flags b.data_node_ids)
        ∷ [] in
      (
        record {
          remaing_times = b.remaing_times;
          id = b.id;
          ino = b.ino;
          offset = b.offset;
          size = b.size;
          data_node_ids = nodes;
        },
        ground (
          arith,
          laws.field_lem Key.remaing_times fields (json.number b.remaing_times) refl,
          laws.field_lem Key.id fields (json.number b.id) refl,
          laws.field_lem Key.ino fields (json.number b.ino) refl,
          laws.field_lem Key.offset fields (json.number b.offset) refl,
          laws.field_lem Key.size fields (json.number b.size) refl,
          laws.field_lem Key.data_node_ids fields (json.flags b.data_node_ids) refl,
          laws.number_lem b.remaing_times,
          laws.number_lem b.id,
          laws.number_lem b.ino,
          laws.number_lem b.offset,
          laws.number_lem b.size,
          read,
        ),
        (refl, refl, refl, refl, refl, same),
      )

  read_blocks-blocks_json :
      (saved had : Map ℕ BlockTask)
      → All (λ (e : ℕ × BlockTask). e.0 ≡ e.1.id) saved
      → (m : Map ℕ BlockTask) × (read_blocks json (blocks_json json (values saved)) had ≡ some m)
        × Loaded SameBlock had saved m
  unfolding read_blocks blocks_json
  read_blocks-blocks_json [] had h = (had, refl, Loaded-nil SameBlock had)
  read_blocks-blocks_json ((id, b) ∷ saved) had h =
      let (b', read, same) = read_block-block_json b in
      let key : b'.id ≡ id = same.1 ∙ sym h.0 in
      let (m, rest, loaded) = read_blocks-blocks_json saved (emplace ℕ_discrete id b' had) h.1 in
      (m, ground (arith, read, key, rest), Loaded-cons SameBlock id b b' had saved m same loaded)

  -- The blocks of a task are kept under their own numbers.
  abbrev pub IsKeyed : TransportTask → Type 0
  IsKeyed task = All (λ (e : ℕ × BlockTask). e.0 ≡ e.1.id) task.blocks

  read_task-task_json :
      (t : TransportTask)
      → IsKeyed t
      → (t' : TransportTask) × (read_task json (task_json json t) ≡ some t') × SameTask t' t
  unfolding read_task task_json
  read_task-task_json t h =
      let (m, read, loaded) = read_blocks-blocks_json t.blocks [] h in
      let js = json.array (blocks_json json (values t.blocks)) in
      let fields : List (Key × J) =
        (Key.ino, json.number t.ino)
        ∷ (Key.total_blocks, json.number t.total_blocks)
        ∷ (Key.done_blocks, json.number t.done_blocks)
        ∷ (Key.local_path, json.text t.local_path)
        ∷ (Key.remote_path, json.text t.remote_path)
        ∷ (Key.blocks, js)
        ∷ [] in
      (
        record t { blocks = m },
        ground (
          arith,
          laws.field_lem Key.ino fields (json.number t.ino) refl,
          laws.field_lem Key.total_blocks fields (json.number t.total_blocks) refl,
          laws.field_lem Key.done_blocks fields (json.number t.done_blocks) refl,
          laws.field_lem Key.local_path fields (json.text t.local_path) refl,
          laws.field_lem Key.remote_path fields (json.text t.remote_path) refl,
          laws.field_lem Key.blocks fields js refl,
          laws.number_lem t.ino,
          laws.number_lem t.total_blocks,
          laws.number_lem t.done_blocks,
          laws.text_lem t.local_path,
          laws.text_lem t.remote_path,
          laws.array_lem (blocks_json json (values t.blocks)),
          read,
        ),
        (refl, refl, refl, refl, refl, loaded),
      )

  -- The tasks are kept under their own inodes.
  abbrev pub AreKeyed : Map ℕ TransportTask → Type 0
  AreKeyed = All (λ (e : ℕ × TransportTask). (e.0 ≡ e.1.ino) × IsKeyed e.1)

  read_tasks-tasks_json :
      {FS : Type 0} (start : TransportTask → Client FS → Client FS)
      (saved had : Map ℕ TransportTask) (c : Client FS)
      → AreKeyed saved
      → (m : Map ℕ TransportTask) × (c' : Client FS) × (read_tasks json start
            (tasks_json json (values saved))
            had
            c
          ≡ some (m, c'))
        × Loaded SameTask had saved m
  unfolding read_tasks tasks_json
  read_tasks-tasks_json start [] had c h = (had, c, refl, Loaded-nil SameTask had)
  read_tasks-tasks_json start ((ino, t) ∷ saved) had c h =
      let (t', read, same) = read_task-task_json t h.0.1 in
      let key : t'.ino ≡ ino = same.0 ∙ sym h.0.0 in
      let (m, c', rest, loaded) =
        read_tasks-tasks_json start saved (emplace ℕ_discrete ino t' had) (start t' c) h.1 in
      (
        m,
        c',
        ground (arith, read, key, rest),
        Loaded-cons SameTask ino t t' had saved m same loaded,
      )

  -- The file is there, it is read, and the tasks of both kinds are started.
  load-parts :
      {FS : Type 0} (desktop : Desktop FS) (later uploading downloading : Client FS) (root : J)
      (ups downs : List J) (us ds : Map ℕ TransportTask)
      → desktop.exists later.fs (tasks_path json later) ≡ true
      → json.parse (desktop.load later.fs (tasks_path json later)) ≡ some root
      → (json.field Key.upload_tasks root >>= json.as_array) ≡ some ups
      → read_tasks json do_upload_task ups [] later ≡ some (us, uploading)
      → (json.field Key.download_tasks root >>= json.as_array) ≡ some downs
      → read_tasks json do_download_task downs [] uploading ≡ some (ds, downloading)
      → load_transport_tasks_json json desktop later
        ≡ some (record downloading { upload_tasks = us; download_tasks = ds })
  unfolding load_transport_tasks_json ensure_file
  load-parts desktop later uploading downloading root ups downs us ds there parsed up read_us down
        read_ds =
      ground arith

  -- What the client saves is what a load finds in the file.
  saved_text :
      {FS : Type 0} (desktop : Desktop FS) (c : Client FS)
      → empty c.session.token ≡ false
      → ((fs : FS) (path text : Str) → desktop.load (desktop.save fs path text) path ≡ text)
      → desktop.load (save_transport_tasks_json json desktop c).fs (tasks_path json c)
        ≡ json.dump (root_json json (values c.upload_tasks) (values c.download_tasks))
  unfolding save_transport_tasks_json
  saved_text desktop c token keeps = ground (
    arith,
    keeps c.fs (tasks_path json c)
        (json.dump (root_json json (values c.upload_tasks) (values c.download_tasks))),
  )

  -- A field that holds an array is read as the array.
  field_array :
      (k : Key) (fields : List (Key × J)) (js : List J)
      → lookup k fields ≡ some (json.array js)
      → (json.field k (json.object fields) >>= json.as_array) ≡ some js
  field_array k fields js found =
      ground (arith, laws.field_lem k fields (json.array js) found, laws.array_lem js)

  -- A client with a session whose tasks are kept under their own inodes and their blocks under their
  -- own numbers saves them, and the file system keeps the file. A client that later loads it for the
  -- same user has the same upload and download tasks, up to the order of blocks and nodes.
  pub load-save :
      {FS : Type 0} (desktop : Desktop FS) (c later : Client FS)
      → empty c.session.token ≡ false
      → AreKeyed c.upload_tasks
      → AreKeyed c.download_tasks
      → later.session.uid ≡ c.session.uid
      → desktop.exists later.fs (tasks_path json c) ≡ true
      → desktop.load later.fs (tasks_path json c)
        ≡ desktop.load (save_transport_tasks_json json desktop c).fs (tasks_path json c)
      → ((fs : FS) (path text : Str) → desktop.load (desktop.save fs path text) path ≡ text)
      → (loaded : Client FS) × (load_transport_tasks_json json desktop later ≡ some loaded)
        × ((k : ℕ)
            → Agrees SameTask
                (find ℕ_discrete k c.upload_tasks)
                (find ℕ_discrete k loaded.upload_tasks))
        × ((k : ℕ)
            → Agrees SameTask
                (find ℕ_discrete k c.download_tasks)
                (find ℕ_discrete k loaded.download_tasks))
  unfolding root_json find
  load-save desktop c later token uploads downloads user there same keeps =
      let (us, uploading, read_us, loaded_us) =
        read_tasks-tasks_json do_upload_task c.upload_tasks [] later uploads in
      let (ds, downloading, read_ds, loaded_ds) =
        read_tasks-tasks_json do_download_task c.download_tasks [] uploading downloads in
      let root = root_json json (values c.upload_tasks) (values c.download_tasks) in
      let path : tasks_path json c ≡ tasks_path json later =
        ap (λ uid. int_to_string uid ++ utf8 "-transport_tasks.json") (sym user) in
      let text : desktop.load later.fs (tasks_path json c) ≡ json.dump root =
        same ∙ saved_text desktop c token keeps in
      (
        record downloading { upload_tasks = us; download_tasks = ds },
        load-parts desktop later uploading downloading root
            (tasks_json json (values c.upload_tasks)) (tasks_json json (values c.download_tasks)) us
            ds (subst (λ p. desktop.exists later.fs p ≡ true) path there)
            (ap json.parse (subst (λ p. desktop.load later.fs p ≡ json.dump root) path text)
              ∙ laws.parse_lem root)
            (field_array Key.upload_tasks _ _ refl) read_us
            (field_array Key.download_tasks _ _ refl) read_ds,
        loaded_us,
        loaded_ds,
      )
