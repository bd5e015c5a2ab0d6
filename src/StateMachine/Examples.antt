-- ===== src/StateMachine/Examples.antt =====
-- The theorems on the state machine at concrete inputs.
use vosfs.Common.{
  find_last_of, ℕ, ◌+◌, ◌<◌, ◌≤◌, ◌≡◌, ◌≢◌, refl, ◌∷◌, ◌++◌, [], List, false, Option, none, some,
  Str, arith, u64_mod, add64, str_discrete, ℕ_discrete, contains_char,
}
use vosfs.Common.Map.{find, emplace, contains, modify}
use vosfs.Api.{
  BlockInfo, LogEntry, EntryCommand, PendingResponse, MakeDirRequest, UploadFileRequest,
  ListDirRequest, PrepareUploadFileResponse, PrepareUploadFileRequest, PrepareDownloadFileRequest,
  default_make_dir_response, default_upload_file_response, default_list_dir_response,
  default_prepare_upload_file_response, default_prepare_download_file_response, default_snapshot,
}
use vosfs.StateMachine.Defs.{
  NodeInfo, PendingRequest, StateMachine, create, load_snapshot, take_snapshot, status_ok, slash,
  root_path, max_ino,
}
use vosfs.StateMachine.Mkdir.{child_path, new_dir_entry, add_dir, mkdir_reply}
use vosfs.StateMachine.Upload.{upload_file_reply, add_file}
use vosfs.StateMachine.Queries.{ls, prepare_upload_file, prepare_download_file}
use vosfs.StateMachine.Apply.{apply_entry, apply_entry_no_response}
use vosfs.StateMachine.Consistency.{IsConsistent}
use vosfs.StateMachine.Preservation.{apply_entry-IsConsistent, create-IsConsistent}
use vosfs.StateMachine.Agreement.{tree, lead, follow, lead-follow}
use vosfs.StateMachine.Listing.{listing, mkdir_reply-ls}
use vosfs.StateMachine.Snapshots.{load_snapshot-take_snapshot}
use vosfs.StateMachine.Placement.{ArePlaced, prepare_upload_file-ArePlaced}
use vosfs.StateMachine.Files.{upload_file_reply-prepare_download_file}
use vosfs.StateMachine.Pending.{waiting}
use vosfs.StateMachine.Divergence.{upload_file_reply-clock, mkdir_reply-upload_file_reply}

abbrev two_nodes : List NodeInfo
two_nodes =
    record { id = 7; name = []; host = []; port = 1 }
    ∷ record { id = 8; name = []; host = []; port = 2 }
    ∷ []

-- The directory "/a", and the file "/f" of one block.
abbrev make_a : MakeDirRequest
make_a = record { token = []; parent_path = root_path; name = b'a' ∷ []; timestamp = 5 }

abbrev one_block : List BlockInfo
one_block = record { id = 3; ino = 1; offset = 0; size = 9; data_node_id = [] } ∷ []

abbrev upload_f : UploadFileRequest
upload_f = record { token = []; ino = 1; path = slash ∷ b'f' ∷ []; blocks = one_block }

abbrev parse_example : Str → Option EntryCommand
parse_example [] = none
parse_example (c ∷ cs) = some (EntryCommand.mkdir make_a)

abbrev entry_a : LogEntry
entry_a = record { term = 1; index = 1; command = 1 ∷ [] }

make_a-ok :
    (mkdir_reply (create two_nodes) make_a default_make_dir_response).1.status_code ≡ status_ok
unfolding mkdir_reply create emplace find max_ino contains modify child_path add_dir str_discrete
    contains_char
make_a-ok = refl

upload_f-ok :
    (now : ℕ)
    → (upload_file_reply (create two_nodes) upload_f now default_upload_file_response).1.status_code
      ≡ status_ok
unfolding upload_file_reply create emplace find max_ino contains modify add_file ℕ_discrete
    str_discrete find_last_of contains_char
upload_f-ok now = refl

has_room : (create two_nodes).next_ino + 1 < u64_mod
unfolding create emplace find max_ino
has_room = omega arith

apply_entry-IsConsistent_example :
    IsConsistent (apply_entry parse_example (create two_nodes) entry_a 5).0
    × IsConsistent (apply_entry_no_response parse_example (create two_nodes) entry_a 5)
apply_entry-IsConsistent_example =
    apply_entry-IsConsistent parse_example (create two_nodes) entry_a 5 has_room tt
      (create-IsConsistent two_nodes)

lead-follow_example :
    tree (lead parse_example (create two_nodes) ((entry_a, 5) ∷ []))
    ≡ tree (follow parse_example (create two_nodes) ((entry_a, 5) ∷ []))
lead-follow_example =
    lead-follow parse_example (create two_nodes) (create two_nodes) ((entry_a, 5) ∷ []) refl

abbrev made_a : StateMachine
made_a = (mkdir_reply (create two_nodes) make_a default_make_dir_response).0

fits : (create two_nodes).next_ino < u64_mod
unfolding create emplace find max_ino
fits = omega arith

load_snapshot-take_snapshot_example :
    let restored = load_snapshot (create []) (
      take_snapshot
        (create two_nodes)
        (record default_snapshot { last_included_index = 10; last_included_term = 2 })) in
    ((k : ℕ) → find ℕ_discrete k restored.inodes ≡ find ℕ_discrete k (create two_nodes).inodes)
    × ((p : Str)
        → find str_discrete p restored.dir_entries
          ≡ find str_discrete p (create two_nodes).dir_entries)
    × IsConsistent restored
    × (restored.next_ino ≤ (create two_nodes).next_ino)
load_snapshot-take_snapshot_example =
    load_snapshot-take_snapshot (create two_nodes) (create []) (create-IsConsistent two_nodes) fits
      10 2

abbrev ask : ListDirRequest
ask = record { token = []; path = slash ∷ b'x' ∷ [] }

mkdir_reply-ls_example :
    let s = create two_nodes in
    let p = child_path make_a.parent_path make_a.name in
    let of_parent = record ask { path = make_a.parent_path } in
    let of_new = record ask { path = p } in
    (ls made_a of_parent default_list_dir_response
      ≡ listing of_parent default_list_dir_response (
          (ls s of_parent default_list_dir_response).dir_entries
          ++ new_dir_entry s.next_ino make_a.name p make_a.timestamp ∷ []))
    × (ls made_a of_new default_list_dir_response ≡ listing of_new default_list_dir_response [])
mkdir_reply-ls_example =
    mkdir_reply-ls (create two_nodes) make_a default_make_dir_response ask default_list_dir_response
      (create-IsConsistent two_nodes) make_a-ok

not_new : ask.path ≢ child_path make_a.parent_path make_a.name
unfolding child_path
not_new = ground arith

not_parent : ask.path ≢ make_a.parent_path
not_parent = ground arith

abbrev upload_request : PrepareUploadFileRequest
upload_request = record {
  token = [];
  local_path = [];
  remote_path = slash ∷ b'f' ∷ [];
  blocks = one_block;
}

some_nodes : (create two_nodes).data_nodes ≢ []
unfolding create
some_nodes = ground arith

path_free : contains str_discrete upload_request.remote_path (create two_nodes).dir_entries ≡ false
unfolding create emplace find contains str_discrete
path_free = refl

prepare_upload_file-ArePlaced_example :
    (r : PrepareUploadFileResponse) × (prepare_upload_file
        (λ k. k)
        (create two_nodes)
        upload_request
        default_prepare_upload_file_response
      ≡ some (record (create two_nodes) { next_ino = add64 (create two_nodes).next_ino 1 }, r))
    × ArePlaced (create two_nodes).data_nodes (create two_nodes).next_ino one_block r.blocks
    × (r.status_code ≡ status_ok)
prepare_upload_file-ArePlaced_example =
    prepare_upload_file-ArePlaced (λ k. k) (create two_nodes) upload_request
      default_prepare_upload_file_response some_nodes path_free

abbrev download_f : PrepareDownloadFileRequest
download_f = record { token = []; local_path = []; remote_path = slash ∷ b'f' ∷ [] }

abbrev uploaded_f : StateMachine
uploaded_f = (upload_file_reply (create two_nodes) upload_f 5 default_upload_file_response).0

upload_file_reply-prepare_download_file_example :
    prepare_download_file uploaded_f download_f default_prepare_download_file_response
    ≡ record default_prepare_download_file_response {
      local_path = download_f.local_path;
      remote_path = download_f.remote_path;
      blocks = upload_f.blocks;
      status_code = status_ok;
    }
upload_file_reply-prepare_download_file_example =
    upload_file_reply-prepare_download_file (create two_nodes) upload_f 5
      default_upload_file_response download_f default_prepare_download_file_response (upload_f-ok 5)
      refl

-- The request 42 waits at index 1.
abbrev pending : PendingRequest
pending = record { handle = some 42; response = PendingResponse.mkdir default_make_dir_response }

abbrev waiting_state : StateMachine
waiting_state = record (create two_nodes) { pending_requests = (1, pending) ∷ [] }

is_waiting : waiting waiting_state entry_a.index ≡ 42 ∷ []
unfolding find ℕ_discrete
is_waiting = refl

abbrev five : ℕ
five = 5

other_times : five ≢ 9
other_times = ground arith

upload_file_reply-clock_example :
    uploaded_f.dir_entries
    ≢ (upload_file_reply (create two_nodes) upload_f 9 default_upload_file_response).0.dir_entries
upload_file_reply-clock_example =
    upload_file_reply-clock (create two_nodes) upload_f 5 9 default_upload_file_response other_times
      (upload_f-ok 5) (upload_f-ok 9)

next_number : upload_f.ino ≡ (create two_nodes).next_ino
unfolding create emplace find max_ino
next_number = refl

make_a_later-ok :
    (mkdir_reply uploaded_f make_a default_make_dir_response).1.status_code ≡ status_ok
unfolding mkdir_reply create emplace find max_ino contains modify child_path add_dir str_discrete
    contains_char upload_file_reply find_last_of add_file
make_a_later-ok = refl

mkdir_reply-upload_file_reply_example :
    ¬ IsConsistent (mkdir_reply uploaded_f make_a default_make_dir_response).0
mkdir_reply-upload_file_reply_example =
    mkdir_reply-upload_file_reply (create two_nodes) upload_f 5 default_upload_file_response make_a
      default_make_dir_response next_number (upload_f-ok 5) make_a_later-ok
