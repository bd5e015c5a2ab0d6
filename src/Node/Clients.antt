-- ===== src/Node/Clients.antt =====
-- The handlers of the client's requests. A handler that suspends is modelled up to there: the
-- leader has appended its entry and the request waits for the state machine.
use vosfs.Common.{ℕ, [], Option, none, some, Str, utf8, if◌then◌else◌, not, add64, to_string, ◌>>=◌}
use vosfs.Api.{
  LogEntry, EntryCommand, PendingResponse, ListDirRequest, ListDirResponse, MakeDirRequest,
  MakeDirResponse, UploadFileRequest, UploadFileResponse, PrepareUploadFileRequest,
  PrepareUploadFileResponse, PrepareDownloadFileRequest, PrepareDownloadFileResponse,
  default_list_dir_response, default_prepare_upload_file_response,
  default_prepare_download_file_response,
}
use vosfs.StateMachine.Defs.{
  append_request, status_failed, status_permission_denied, status_not_leader,
}
use vosfs.StateMachine.Queries.{ls, prepare_upload_file, prepare_download_file}
use vosfs.RaftLog.Defs.{last_log_index, append_entry}
use vosfs.Node.Defs.{World, Node, is_leader}

-- `std::to_string(leader_id_)`, or nothing if the leader is unknown
abbrev pub leader_name : Option ℕ → Str
leader_name none = []
leader_name (some id) = to_string id

-- A reply at once, or the log index whose pending request holds the reply when the handler resumes.
pub data Outcome (R : Type 0) : Type 0 where
  replied : R → Outcome R
  suspended : ℕ → Outcome R

-- `make_list_dir_response` and its relatives
abbrev pub make_list_dir_response : ℕ → Str → ListDirResponse
make_list_dir_response status_code message = record {
  status_code = status_code;
  message = message;
  path = [];
  dir_entries = [];
}

abbrev pub make_make_dir_response : ℕ → Str → MakeDirResponse
make_make_dir_response status_code message = record {
  status_code = status_code;
  message = message;
  parent_path = [];
}

abbrev pub make_upload_file_response : ℕ → Str → ℕ → UploadFileResponse
make_upload_file_response status_code message ino = record {
  status_code = status_code;
  message = message;
  ino = ino;
}

abbrev pub make_prepare_upload_file_response : ℕ → Str → PrepareUploadFileResponse
make_prepare_upload_file_response status_code message = record {
  status_code = status_code;
  message = message;
  local_path = [];
  remote_path = [];
  blocks = [];
}

abbrev pub make_prepare_download_file_response : ℕ → Str → PrepareDownloadFileResponse
make_prepare_download_file_response status_code message = record {
  status_code = status_code;
  message = message;
  local_path = [];
  remote_path = [];
  blocks = [];
}

-- "无效 Token"
abbrev pub invalid_token : Str
invalid_token = utf8 "无效 Token"

module _ {DB FS : Type 0} (w : World DB FS) where
  -- `RaftNode::handle_list_dir_request`
  unfoldable pub handle_list_dir_request : ListDirRequest → Node DB FS → ListDirResponse
  unfolding ls
  handle_list_dir_request request n =
      if not (w.verify_token request.token)
      then make_list_dir_response status_permission_denied invalid_token
      else if not (is_leader n.role)
      then make_list_dir_response status_not_leader (leader_name n.leader_id)
      else ls n.state_machine request default_list_dir_response

  -- The new entry of the leader's log, and the request that waits for it. `handle` is the
  -- suspended coroutine.
  unfoldable pub append_command : EntryCommand → ℕ → PendingResponse → Node DB FS → Node DB FS × ℕ
  unfolding append_entry append_request
  append_command command handle response n =
      let log_index = add64 (last_log_index n.logs) 1 in
      let entry : LogEntry = record {
        term = n.hard_state.current_term;
        index = log_index;
        command = w.command_codec.serialize command;
      } in
      let (s, pending) =
        append_request n.state_machine log_index
          (record { handle = some handle; response = response }) in
      (record n { logs = append_entry n.logs entry; state_machine = s }, log_index)

  -- `RaftNode::handle_make_dir_request`; `now` is `kosio::util::current_ms()`.
  unfoldable pub handle_make_dir_request :
      ℕ → ℕ → MakeDirRequest → Node DB FS → Node DB FS × Outcome MakeDirResponse
  unfolding append_command
  handle_make_dir_request now handle request n =
      if not (w.verify_token request.token)
      then (n, replied (make_make_dir_response status_permission_denied invalid_token))
      else if not (is_leader n.role)
      then (n, replied (make_make_dir_response status_not_leader (leader_name n.leader_id)))
      else (let (waiting, log_index) =
            append_command (EntryCommand.mkdir (record request { timestamp = now })) handle
              (PendingResponse.mkdir (make_make_dir_response status_failed (utf8 "创建文件夹失败：未知错误")))
              n in
          (waiting, suspended log_index))

  -- `RaftNode::handle_upload_file_request`
  unfoldable pub handle_upload_file_request :
      ℕ → UploadFileRequest → Node DB FS → Node DB FS × Outcome UploadFileResponse
  unfolding append_command
  handle_upload_file_request handle request n =
      if not (w.verify_token request.token)
      then (
        n,
        replied (make_upload_file_response status_permission_denied invalid_token request.ino),
      )
      else if not (is_leader n.role)
      then (
        n,
        replied (make_upload_file_response status_not_leader (leader_name n.leader_id) request.ino),
      )
      else (let (waiting, log_index) =
            append_command (EntryCommand.upload_file request) handle
              (PendingResponse.upload_file
                (make_upload_file_response status_failed (utf8 "文件上传失败，未知错误") 0))
              n in
          (waiting, suspended log_index))

  -- `RaftNode::handle_prepare_upload_file_request`
  unfoldable pub handle_prepare_upload_file_request :
      PrepareUploadFileRequest → Node DB FS → Option (Node DB FS × PrepareUploadFileResponse)
  unfolding prepare_upload_file
  handle_prepare_upload_file_request request n =
      if not (w.verify_token request.token)
      then some (n, make_prepare_upload_file_response status_permission_denied invalid_token)
      else if not (is_leader n.role)
      then some (n, make_prepare_upload_file_response status_not_leader (leader_name n.leader_id))
      else (do
        (s, response) ←
            prepare_upload_file w.hash n.state_machine request default_prepare_upload_file_response
        some (record n { state_machine = s }, response))

  -- `RaftNode::handle_prepare_download_file_request`
  unfoldable pub handle_prepare_download_file_request :
      PrepareDownloadFileRequest → Node DB FS → PrepareDownloadFileResponse
  unfolding prepare_download_file
  handle_prepare_download_file_request request n =
      if not (w.verify_token request.token)
      then make_prepare_download_file_response status_permission_denied invalid_token
      else if not (is_leader n.role)
      then make_prepare_download_file_response status_not_leader (leader_name n.leader_id)
      else prepare_download_file n.state_machine request default_prepare_download_file_response
