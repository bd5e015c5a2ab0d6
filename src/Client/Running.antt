-- ===== src/Client/Running.antt =====
-- The life of a client: `create`, `shutdown` and the loop over the queue. No result is an
-- exception, or a loop that goes on.
use vosfs.Common.{
  ℕ, suc, zero, ◌∷◌, [], ◌++◌, List, Bool, true, false, not, ◌||◌, Option, none, some, Str,
  if◌then◌else◌, ◌>>=◌,
}
use vosfs.Common.Map.{values}
use vosfs.Common.Result.{Result, ok, err}
use vosfs.Json.{Json}
use vosfs.Config.Files.{Files}
use vosfs.Config.Ui
use vosfs.Config.Ui.{Config, from_json}
use vosfs.Client.Defs.{Client, Desktop, Job, default_session, member}
use vosfs.Client.Saving.{load_transport_tasks_json}
use vosfs.Client.Requests.{
  send_register_user_request, send_delete_user_request, send_login_user_by_name_request,
  send_list_dir_request, send_make_dir_request, send_prepare_upload_file_request,
  send_upload_block_request, send_upload_file_request, send_prepare_download_file_request,
  send_download_block_request,
}

-- `clients.emplace(node.id, ...)` for every node
unfoldable pub connections : List Ui.NodeInfo → List ℕ → List ℕ
connections [] ids = ids
connections (node ∷ nodes) ids =
    connections nodes (if member node.id ids then ids else ids ++ node.id ∷ [])

-- The key of `raft_clients_.begin()`, where there is one.
abbrev pub first_id : List ℕ → ℕ
first_id [] = 0
first_id (id ∷ ids) = id

abbrev pub has_tasks : List Job → Bool
has_tasks [] = false
has_tasks (task ∷ tasks) = true

abbrev pub shutdown_jobs : List ℕ → List Job
shutdown_jobs [] = []
shutdown_jobs (id ∷ ids) = Job.shutdown_raft id ∷ shutdown_jobs ids

module _ {FS : Type 0} where
  -- The constructor, on the nodes that `create` connects
  unfoldable pub make_client : List ℕ → List ℕ → FS → Client FS
  make_client raft_clients data_clients fs = record {
    is_shutdown = true;
    session = default_session;
    leader_id = first_id raft_clients;
    raft_clients = raft_clients;
    data_clients = data_clients;
    tasks = [];
    upload_tasks = [];
    download_tasks = [];
    fs = fs;
    signals = [];
    calls = [];
  }

  abbrev pub created : FS → Result Config → Result (Client FS)
  unfolding connections make_client
  created fs (err e) = err e
  created fs (ok config) = ok (
      make_client (connections (values config.raft_nodes) [])
        (connections (values config.data_nodes) []) fs)

  -- `VosfsClient::shutdown`, up to the wait for the loop
  unfoldable pub shutdown : Client FS → Client FS
  shutdown c = if c.is_shutdown then c else record c {
    tasks = c.tasks ++ Job.shutdown_auth ∷ shutdown_jobs c.raft_clients;
    is_shutdown = true;
  }

abbrev pub max_pop_size : ℕ
max_pop_size = 16

module _ {J : Type 0} (json : Json J) {FS : Type 0} where
  -- `VosfsClient::create`
  unfoldable pub create : Files FS → FS → Str → Option (Result (Client FS))
  unfolding from_json created
  create files fs config_path =
      from_json json files fs config_path >>= λ has_config. some (created fs has_config)

  module _ (desktop : Desktop FS) where
    -- What `co_await task` does; the shutdown of a connection changes nothing of the client.
    unfoldable pub run_job : Job → Client FS → Option (Client FS)
    unfolding send_register_user_request send_delete_user_request send_login_user_by_name_request
        send_list_dir_request send_make_dir_request send_prepare_upload_file_request
        send_upload_block_request send_upload_file_request send_prepare_download_file_request
        send_download_block_request load_transport_tasks_json
    run_job (Job.send_register_user user_name password role admin_secret) c =
        some (send_register_user_request desktop user_name password role admin_secret c)
    run_job (Job.send_delete_user password) c = some (send_delete_user_request desktop password c)
    run_job (Job.send_login_user_by_name user_name password role) c =
        some (send_login_user_by_name_request desktop user_name password role c)
    run_job (Job.send_list_dir path) c = some (send_list_dir_request path c)
    run_job (Job.send_make_dir parent_path name) c = some (send_make_dir_request parent_path name c)
    run_job (Job.send_prepare_upload_file local_path current_dir) c =
        send_prepare_upload_file_request desktop local_path current_dir c
    run_job (Job.send_prepare_download_file local_path remote_path) c =
        some (send_prepare_download_file_request desktop local_path remote_path c)
    run_job (Job.send_upload_block local_path id ino offset size data_node_id) c =
        some (send_upload_block_request desktop local_path id ino offset size data_node_id c)
    run_job (Job.send_upload_file ino) c = some (send_upload_file_request ino c)
    run_job (Job.send_download_block id ino data_node_id) c =
        some (send_download_block_request id ino data_node_id c)
    run_job Job.load_transport_tasks c = load_transport_tasks_json json desktop c
    run_job Job.shutdown_auth c = some c
    run_job (Job.shutdown_raft id) c = some c

    -- The inner loop: at most so many coroutines, from the front of the queue.
    unfoldable pub pop_tasks : ℕ → Client FS → Option (Client FS)
    unfolding run_job
    pop_tasks zero c = some c
    pop_tasks (suc n) c = elim c.tasks [
      | [] ↦ some c
      | task ∷ tasks ↦ (run_job task (record c { tasks = tasks }) >>= λ next. pop_tasks n next)
    ]

    -- `VosfsClient::process_tasks`, on so many turns of its loop; the coroutine that saves is not part
    -- of it.
    unfoldable pub process_tasks : ℕ → Client FS → Option (Client FS)
    unfolding pop_tasks
    process_tasks zero c = none
    process_tasks (suc fuel) c = elim (not c.is_shutdown || has_tasks c.tasks) [
      | true ↦ (pop_tasks max_pop_size c >>= λ next. process_tasks fuel next)
      | false ↦ some c
    ]
