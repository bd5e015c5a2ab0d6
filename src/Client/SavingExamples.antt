-- ===== src/Client/SavingExamples.antt =====
-- The theorems on saved transfers and on the shutdown at concrete clients.
use vosfs.Common.{ℕ, ◌≡◌, refl, ◌∷◌, [], ◌++◌, Bool, arith, true, false, some, Str, ℕ_discrete}
use vosfs.Common.Map.{find}
use vosfs.Client.Defs.{Client, Job, BlockTask, TransportTask}
use vosfs.Client.Running.{process_tasks, shutdown, shutdown_jobs}
use vosfs.Client.Draining.{Runs, process_tasks-shutdown}
use vosfs.Client.Saving.{save_transport_tasks_json, load_transport_tasks_json}
use vosfs.Common.Reading.{Agrees}
use vosfs.Client.Restoring.{SameTask, load-save}
use vosfs.Json.Samples.{json, json_laws}
use vosfs.Client.Samples.{Fs, desktop, no_claims, client, content-put}

abbrev block : BlockTask
block = record {
  remaing_times = 1;
  id = 0;
  ino = 4;
  offset = 0;
  size = 3;
  data_node_ids = (7, true) ∷ (8, false) ∷ [];
}

abbrev upload : TransportTask
upload = record {
  ino = 4;
  total_blocks = 1;
  done_blocks = 0;
  local_path = b'a' ∷ [];
  remote_path = b'/' ∷ [];
  blocks = (0, block) ∷ [];
}

abbrev busy : Client Fs
busy = record client {
  session = record client.session { token = b't' ∷ [] };
  upload_tasks = (4, upload) ∷ [];
}

abbrev saved : Client Fs
saved = save_transport_tasks_json json (desktop no_claims) busy

abbrev later : Client Fs
later = record client { fs = saved.fs }

load-save_example :
    (loaded : Client Fs) × (load_transport_tasks_json json (desktop no_claims) later ≡ some loaded)
    × ((k : ℕ)
        → Agrees SameTask
            (find ℕ_discrete k busy.upload_tasks)
            (find ℕ_discrete k loaded.upload_tasks))
    × ((k : ℕ)
        → Agrees SameTask
            (find ℕ_discrete k busy.download_tasks)
            (find ℕ_discrete k loaded.download_tasks))
unfolding save_transport_tasks_json find vosfs.Common.Map.put vosfs.Common.str_discrete
    vosfs.Common.int_to_string vosfs.Common.utf8
load-save_example =
    load-save json json_laws (desktop no_claims) busy later refl ((refl, (refl, tt)), tt) tt refl
      refl refl content-put

-- A client that runs, with a list and an upload in its queue.
abbrev running : Client Fs
running = record client {
  is_shutdown = false;
  tasks = Job.send_list_dir (b'/' ∷ []) ∷ Job.send_upload_file 4 ∷ [];
}

process_tasks-shutdown_example :
    (c' : Client Fs) × (process_tasks json (desktop no_claims) 6 (shutdown running) ≡ some c')
    × (c'.tasks ≡ [])
    × Runs json
        (desktop no_claims)
        (running.tasks ++ Job.shutdown_auth ∷ shutdown_jobs running.raft_clients)
        (shutdown running)
        c'
process_tasks-shutdown_example =
    process_tasks-shutdown json (desktop no_claims) 6 running refl (tt, (tt, tt)) (omega arith)
