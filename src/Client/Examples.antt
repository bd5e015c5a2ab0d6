-- ===== src/Client/Examples.antt =====
-- The theorems on the client at concrete transfers.
use mathlib.Core.List.{Perm}
use vosfs.Common.{
  ℕ, ◌+◌, ◌-◌, ◌/◌, ◌<◌, ◌≡◌, refl, ◌∷◌, [], ◌++◌, List, Bool, true, false, none, some, Str, arith,
  length, if◌then◌else◌, ◌==◌, ℕ_discrete, inl,
}
use vosfs.Common.Map.{find, put}
use vosfs.Api.{
  BlockInfo, DirEntry, ListDirResponse, PrepareUploadFileResponse, UploadBlockResponse,
  DownloadBlockResponse,
}
use vosfs.Client.Defs.{Client, Job, Signal, BlockTask, TransportTask, emit, log}
use vosfs.Client.Splitting.{vosfs_block_size, split_file}
use vosfs.Client.Tiling.{Tiles, split_file-length, split_file-Tiles}
use vosfs.Client.Blocks.{
  confirm_upload, handle_upload_block_response, handle_download_block_response,
}
use vosfs.Client.Responses.{handle_list_dir_response, items_of}
use vosfs.Client.Listing.{IsSorted, handle_list_dir_response-shown}
use vosfs.Client.Confirmations.{
  IsCounted, finished, missing, handle_upload_block_response-IsCounted,
  handle_upload_block_response-repeated,
}
use vosfs.Client.Completion.{outstanding, Confirms, Confirms-tasks}
use vosfs.Client.Deliveries.{Downloads}
use vosfs.Client.Downloads.{Downloads-content}
use vosfs.Persister.Engine.{GetResult}
use vosfs.Node.Defs.{Node}
use vosfs.Node.Clients.{handle_list_dir_request}
use vosfs.Node.Examples.{world, node}
use vosfs.Client.Redirects.{Redirected, redirect-requests}
use vosfs.Client.Samples.{Fs, desktop, write_laws, content, no_claims, client, done_ok}

abbrev bytes : Str
bytes = 10 ∷ 20 ∷ 30 ∷ []

abbrev whole : BlockInfo
whole = record { id = 0; ino = 0; offset = 0; size = 3; data_node_id = [] }

split_file-length_example :
    (blocks : List BlockInfo) × (split_file 3 ≡ some blocks)
    × (length blocks ≡ (3 + vosfs_block_size - 1) / vosfs_block_size)
split_file-length_example = split_file-length 3 (omega arith)

split_file-Tiles_example : Tiles 0 0 3 (whole ∷ [])
unfolding split_file
split_file-Tiles_example = split_file-Tiles 3 (whole ∷ []) (omega arith) refl

abbrev entry_f : DirEntry
entry_f = record {
  ino = 2;
  name = b'a' ∷ [];
  path = [];
  is_dir = false;
  size = 0;
  ctime = 0;
  mtime = 0;
}

abbrev entry_d : DirEntry
entry_d = record {
  ino = 3;
  name = b'b' ∷ [];
  path = [];
  is_dir = true;
  size = 0;
  ctime = 0;
  mtime = 0;
}

abbrev listing : ListDirResponse
listing = record { status_code = 0; message = []; path = []; dir_entries = entry_f ∷ entry_d ∷ [] }

handle_list_dir_response-shown_example :
    (entries : List DirEntry) × (handle_list_dir_response (desktop no_claims) done_ok listing client
      ≡ some (
          log listing.message (
            emit
              (Signal.list_dir_finished listing.path (items_of (desktop no_claims) entries))
              client)))
    × Perm entries listing.dir_entries
    × IsSorted entries
handle_list_dir_response-shown_example =
    handle_list_dir_response-shown (desktop no_claims) done_ok listing client refl refl

-- A file of two blocks, each on the nodes 7 and 8.
abbrev block_0 : BlockInfo
block_0 = record { id = 0; ino = 4; offset = 0; size = 2; data_node_id = 7 ∷ 8 ∷ [] }

abbrev block_1 : BlockInfo
block_1 = record { id = 1; ino = 4; offset = 2; size = 1; data_node_id = 7 ∷ 8 ∷ [] }

abbrev prepared : PrepareUploadFileResponse
prepared = record {
  status_code = 0;
  message = [];
  local_path = [];
  remote_path = [];
  blocks = block_0 ∷ block_1 ∷ [];
}

-- The upload of two blocks of one node each.
abbrev block_state : ℕ → ℕ → Bool → BlockTask
block_state id remaing_times done = record {
  remaing_times = remaing_times;
  id = id;
  ino = 4;
  offset = 0;
  size = 1;
  data_node_ids = (7, done) ∷ [];
}

abbrev upload : TransportTask
upload = record {
  ino = 4;
  total_blocks = 2;
  done_blocks = 1;
  local_path = [];
  remote_path = [];
  blocks = (0, block_state 0 0 true) ∷ (1, block_state 1 1 false) ∷ [];
}

upload-IsCounted : IsCounted upload
unfolding missing finished
upload-IsCounted = record {
  counted = (refl, (refl, tt));
  done = refl;
  total = refl;
  room = omega arith;
}

abbrev uploading : Client Fs
uploading = record client { upload_tasks = (4, upload) ∷ [] }

abbrev confirmed : ℕ → UploadBlockResponse
confirmed id = record { status_code = 0; message = []; block_id = id; ino = 4; data_node_id = 7 }

handle_upload_block_response-IsCounted_example :
    IsCounted (confirm_upload 1 7 upload)
    × ((handle_upload_block_response done_ok (confirmed 1) uploading).upload_tasks
        ≡ put ℕ_discrete 4 (confirm_upload 1 7 upload) uploading.upload_tasks)
    × ((handle_upload_block_response done_ok (confirmed 1) uploading).tasks ≡ (
        if finished (confirm_upload 1 7 upload).blocks == length (confirm_upload 1 7 upload).blocks
        then uploading.tasks ++ Job.send_upload_file 4 ∷ []
        else uploading.tasks))
unfolding find ℕ_discrete
handle_upload_block_response-IsCounted_example =
    handle_upload_block_response-IsCounted done_ok (confirmed 1) uploading upload
      (block_state 1 1 false) refl refl refl refl upload-IsCounted refl

handle_upload_block_response-repeated_example :
    ((handle_upload_block_response done_ok (confirmed 0) uploading).tasks
      ≡ uploading.tasks ++ Job.send_upload_file 4 ∷ [])
    × (finished (confirm_upload 0 7 upload).blocks < length (confirm_upload 0 7 upload).blocks)
unfolding find ℕ_discrete finished
handle_upload_block_response-repeated_example =
    handle_upload_block_response-repeated done_ok (confirmed 0) uploading upload
      (block_state 0 0 true) refl refl refl refl upload-IsCounted refl refl

one_confirmation :
    Confirms 4 uploading 1 (handle_upload_block_response done_ok (confirmed 1) uploading)
unfolding find ℕ_discrete
one_confirmation =
    Confirms.next done_ok (confirmed 1) upload (block_state 1 1 false) Confirms.here refl refl refl
      refl refl refl

Confirms-tasks_example :
    (1 < outstanding upload.blocks
      → (handle_upload_block_response done_ok (confirmed 1) uploading).tasks ≡ uploading.tasks)
    × (1 ≡ outstanding upload.blocks
        → (handle_upload_block_response done_ok (confirmed 1) uploading).tasks
          ≡ uploading.tasks ++ Job.send_upload_file 4 ∷ [])
unfolding find ℕ_discrete outstanding
Confirms-tasks_example =
    Confirms-tasks 4 uploading upload refl upload-IsCounted (omega arith) 1
      (handle_upload_block_response done_ok (confirmed 1) uploading) one_confirmation

-- The download of a file of one block.
abbrev download : TransportTask
download = record {
  ino = 4;
  total_blocks = 1;
  done_blocks = 0;
  local_path = b'f' ∷ [];
  remote_path = [];
  blocks =
      (0, record { remaing_times = 1; id = 0; ino = 4; offset = 0; size = 3; data_node_ids = [] })
      ∷ [];
}

abbrev downloading : Client Fs
downloading = record client { download_tasks = (4, download) ∷ [] }

abbrev delivered : DownloadBlockResponse
delivered = record {
  status_code = 0;
  message = [];
  block_id = 0;
  ino = 4;
  data_node_id = 7;
  bytes = bytes;
}

abbrev downloaded : Client Fs
downloaded = handle_download_block_response (desktop no_claims) done_ok delivered downloading

one_download : Downloads (desktop no_claims) bytes download downloading (whole ∷ []) downloaded
unfolding find ℕ_discrete
one_download =
    Downloads.next done_ok delivered whole Downloads.here refl refl refl refl refl (_, refl, refl)
      (omega arith, omega arith) (refl, refl, refl)

Downloads-content_example :
    (content downloaded.fs (b'f' ∷ []) ≡ bytes)
    × (find ℕ_discrete 4 downloaded.download_tasks ≡ none)
unfolding find ℕ_discrete write_laws
Downloads-content_example =
    Downloads-content (desktop no_claims) (write_laws no_claims) bytes (whole ∷ []) (whole ∷ [])
      download downloading downloaded split_file-Tiles_example refl (refl, refl)
      (omega arith, omega arith) (omega arith) one_download refl (inl refl, tt)

-- The node 3 is no leader and takes 2 for the leader.
abbrev follower_node : Node (Str → GetResult) Str
follower_node = record node { leader_id = some 2 }

redirect-requests_example : Redirected (some 2) client (
    handle_list_dir_response
      (desktop no_claims)
      done_ok
      (handle_list_dir_request world (record { token = []; path = [] }) follower_node)
      client)
redirect-requests_example =
    (redirect-requests world follower_node (desktop no_claims) client [] [] [] [] [] 0 0 0 refl refl
      (omega arith)).0
