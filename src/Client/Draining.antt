-- ===== src/Client/Draining.antt =====
-- A client that is shut down empties its queue and ends.
use vosfs.Common.{
  ℕ, suc, zero, ◌+◌, ◌-◌, ◌<◌, ◌≡◌, refl, ap, ◌∙◌, ◌∷◌, [], ◌++◌, List, true, false, some, arith,
  All, All-append, length, length-append,
}
use vosfs.Json.{Json}
use vosfs.Client.Defs.{Client, Desktop, Job}
use vosfs.Client.Requests.{
  send_register_user_request, send_delete_user_request, send_login_user_by_name_request,
  send_list_dir_request, send_make_dir_request, send_upload_block_request, send_upload_file_request,
  send_prepare_download_file_request, send_download_block_request, call_leader, call_data_node,
}
use vosfs.Client.Running.{run_job, pop_tasks, process_tasks, shutdown, shutdown_jobs, max_pop_size}

-- The coroutines that neither throw nor put others into the queue.
abbrev pub IsPlain : Job → Type 0
IsPlain (Job.send_prepare_upload_file local_path current_dir) = ⊥
IsPlain Job.load_transport_tasks = ⊥
IsPlain job = Unit

module _ {J : Type 0} (json : Json J) {FS : Type 0} (desktop : Desktop FS) where
  -- The coroutines of a queue, run in order, each after it was taken from the queue.
  pub data Runs : List Job → Client FS → Client FS → Type 0 where
    done : (c : Client FS) → Runs [] c c
    next :
        (job : Job) (jobs : List Job) (c c' c'' : Client FS)
        → run_job json desktop job (record c { tasks = jobs }) ≡ some c'
        → Runs jobs c' c''
        → Runs (job ∷ jobs) c c''

  run_job-tasks :
      (job : Job) (c : Client FS)
      → IsPlain job
      → (c' : Client FS) × (run_job json desktop job c ≡ some c')
        × (c'.tasks ≡ c.tasks)
        × (c'.is_shutdown ≡ c.is_shutdown)
  unfolding run_job call_leader call_data_node send_register_user_request send_delete_user_request
      send_login_user_by_name_request send_list_dir_request send_make_dir_request
      send_upload_block_request send_upload_file_request send_prepare_download_file_request
      send_download_block_request
  run_job-tasks (Job.send_register_user user_name password role admin_secret) c h =
      (_, refl, refl, refl)
  run_job-tasks (Job.send_delete_user password) c h = (_, refl, refl, refl)
  run_job-tasks (Job.send_login_user_by_name user_name password role) c h = (_, refl, refl, refl)
  run_job-tasks (Job.send_list_dir path) c h = (_, refl, ground arith, ground arith)
  run_job-tasks (Job.send_make_dir parent_path name) c h = (_, refl, ground arith, ground arith)
  run_job-tasks (Job.send_prepare_upload_file local_path current_dir) c h = absurd h
  run_job-tasks (Job.send_prepare_download_file local_path remote_path) c h =
      (_, refl, ground arith, ground arith)
  run_job-tasks (Job.send_upload_block local_path id ino offset size data_node_id) c h =
      (_, refl, ground arith, ground arith)
  run_job-tasks (Job.send_upload_file ino) c h = (_, refl, ground arith, ground arith)
  run_job-tasks (Job.send_download_block id ino data_node_id) c h =
      (_, refl, ground arith, ground arith)
  run_job-tasks Job.load_transport_tasks c h = absurd h
  run_job-tasks Job.shutdown_auth c h = (c, refl, refl, refl)
  run_job-tasks (Job.shutdown_raft id) c h = (c, refl, refl, refl)

  -- The inner loop runs coroutines from the front of the queue.
  pop_tasks-Runs :
      (n : ℕ) (jobs : List Job) (c : Client FS)
      → c.tasks ≡ jobs
      → All IsPlain jobs
      → (c' : Client FS) × (rest : List Job) × (pop_tasks json desktop n c ≡ some c')
        × (c'.tasks ≡ rest)
        × (c'.is_shutdown ≡ c.is_shutdown)
        × All IsPlain rest
        × (length rest ≡ length jobs - n)
        × ((last : Client FS) → Runs rest c' last → Runs jobs c last)
  unfolding pop_tasks
  pop_tasks-Runs zero jobs c e h = (c, jobs, refl, e, refl, h, omega arith, λ last r. r)
  pop_tasks-Runs (suc n) [] c e h = (c, [], ground arith, e, refl, h, omega arith, λ last r. r)
  pop_tasks-Runs (suc n) (job ∷ jobs) c e (plain, h) =
      let (c1, ran, kept, same) = run_job-tasks job (record c { tasks = jobs }) plain in
      let (c', rest, popped, left, shut, plains, fewer, runs) = pop_tasks-Runs n jobs c1 kept h in
      (
        c',
        rest,
        ground (arith, ran, popped),
        left,
        shut ∙ same,
        plains,
        omega (arith, fewer),
        λ last r. Runs.next job jobs c c1 last ran (runs last r),
      )

  process_tasks-drained :
      (fuel : ℕ) (jobs : List Job) (c : Client FS)
      → c.tasks ≡ jobs
      → All IsPlain jobs
      → c.is_shutdown ≡ true
      → length jobs < fuel
      → (c' : Client FS) × (process_tasks json desktop fuel c ≡ some c')
        × (c'.tasks ≡ [])
        × Runs jobs c c'
  unfolding process_tasks
  process_tasks-drained zero jobs c e h shut enough = absurd (omega arith)
  process_tasks-drained (suc fuel) [] c e h shut enough = (c, ground arith, e, Runs.done c)
  process_tasks-drained (suc fuel) (job ∷ jobs) c e h shut enough =
      let (c1, rest, popped, left, same, plains, fewer, runs) =
        pop_tasks-Runs max_pop_size (job ∷ jobs) c e h in
      let (c', ended, none_left, ran) =
        process_tasks-drained fuel rest c1 left plains (same ∙ shut)
          (omega (arith, fewer, enough)) in
      (c', ground (arith, popped, ended), none_left, runs c' ran)

  length-shutdown_jobs : (ids : List ℕ) → length (shutdown_jobs ids) ≡ length ids
  length-shutdown_jobs [] = refl
  length-shutdown_jobs (id ∷ ids) = ap suc (length-shutdown_jobs ids)

  shutdown_jobs-IsPlain : (ids : List ℕ) → All IsPlain (shutdown_jobs ids)
  shutdown_jobs-IsPlain [] = tt
  shutdown_jobs-IsPlain (id ∷ ids) = (tt, shutdown_jobs-IsPlain ids)

  -- A client that runs, in whose queue no coroutine cuts a file or loads the saved transfers, and that is
  -- shut down while no other code puts a coroutine into the queue, ends: on more turns of the loop than
  -- the queue then has coroutines, the queue is empty, and the client has run the coroutines of the
  -- queue in order and behind them the shutdown of the connection to the authentication node and of
  -- each connection to a node of the cluster.
  pub process_tasks-shutdown :
      (fuel : ℕ) (c : Client FS)
      → c.is_shutdown ≡ false
      → All IsPlain c.tasks
      → length c.tasks + length c.raft_clients + 1 < fuel
      → (c' : Client FS) × (process_tasks json desktop fuel (shutdown c) ≡ some c')
        × (c'.tasks ≡ [])
        × Runs (c.tasks ++ Job.shutdown_auth ∷ shutdown_jobs c.raft_clients) (shutdown c) c'
  unfolding shutdown
  process_tasks-shutdown fuel c running plain enough =
      let closing = Job.shutdown_auth ∷ shutdown_jobs c.raft_clients in
      process_tasks-drained fuel (c.tasks ++ closing) (shutdown c) (ground arith)
        (All-append IsPlain c.tasks closing plain (tt, shutdown_jobs-IsPlain c.raft_clients))
        (ground arith)
        (omega (arith, enough, length-append c.tasks closing, length-shutdown_jobs c.raft_clients))
