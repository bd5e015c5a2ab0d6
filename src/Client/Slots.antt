-- ===== src/Client/Slots.antt =====
-- The slots of the user interface.
use vosfs.Common.{◌∷◌, [], ◌++◌, List, Bool, true, false, Str, utf8, to_string, ℤ}
use vosfs.Common.Map.{values}
use vosfs.Client.Defs.{Client, Job, Signal, Progress, TransportTask, emit, enqueue}

abbrev progress_of : Bool → List TransportTask → List Progress
progress_of is_upload [] = []
progress_of is_upload (task ∷ tasks) =
    record {
      is_upload = is_upload;
      ino = task.ino;
      progress = to_string task.done_blocks ++ b'/' ∷ to_string task.total_blocks;
    }
    ∷ progress_of is_upload tasks

module _ {FS : Type 0} where
  -- The slots put a coroutine into the queue.
  unfoldable pub register_user : Str → Str → ℤ → Str → Client FS → Client FS
  register_user user_name password role admin_secret =
      enqueue (Job.send_register_user user_name password role admin_secret)

  unfoldable pub delete_user : Str → Client FS → Client FS
  delete_user password = enqueue (Job.send_delete_user password)

  unfoldable pub login_user_by_name : Str → Str → ℤ → Client FS → Client FS
  login_user_by_name user_name password role =
      enqueue (Job.send_login_user_by_name user_name password role)

  unfoldable pub list_dir : Str → Client FS → Client FS
  list_dir path = enqueue (Job.send_list_dir path)

  unfoldable pub make_dir : Str → Str → Client FS → Client FS
  make_dir parent_path name = enqueue (Job.send_make_dir parent_path name)

  unfoldable pub prepare_upload_file : Str → Str → Client FS → Client FS
  prepare_upload_file local_path current_dir =
      enqueue (Job.send_prepare_upload_file local_path current_dir)

  unfoldable pub prepare_download_file : Str → Str → Client FS → Client FS
  prepare_download_file name remote_path =
      enqueue (Job.send_prepare_download_file (utf8 "./" ++ name) remote_path)

  -- `VosfsClient::update_transport_page`
  unfoldable pub update_transport_page : Client FS → Client FS
  update_transport_page c =
      emit
        (Signal.update_transport_page_finished
          (progress_of true (values c.upload_tasks) ++ progress_of false (values c.download_tasks)))
        c
