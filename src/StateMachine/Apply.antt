-- ===== src/StateMachine/Apply.antt =====
-- `StateMachine::apply_entry` and `apply_entry_no_response`. `parse_command` is
-- `EntryCommand::ParseFromString`; `current_ms` is the clock that `upload_file` reads.
use vosfs.Common.{ℕ, ◌∷◌, [], Option, none, some, List, Str, ℕ_discrete}
use vosfs.Common.Map.{access, put}
use vosfs.Api.{EntryCommand, PendingResponse, LogEntry, mutable_mkdir, mutable_upload_file}
use vosfs.StateMachine.Defs.{StateMachine, PendingRequest}
use vosfs.StateMachine.Mkdir.{mkdir, mkdir_reply}
use vosfs.StateMachine.Upload.{upload_file, upload_file_reply}

-- A suspended request that goes on, with the response that it finds.
pub record Resumed : Type 0 where
  pub request : ℕ
  pub response : PendingResponse

-- `if (pending_request.handle) pending_request.handle.resume()`
abbrev pub resume : PendingRequest → List Resumed
resume p = elim p.handle [ none ↦ [] | some h ↦ record { request = h; response = p.response } ∷ [] ]

-- A value-initialised `PendingRequest`
abbrev pub no_request : PendingRequest
no_request = record { handle = none; response = PendingResponse.type_not_set }

-- A write to the response of an entry of `pending_requests_`.
abbrev pub respond :
    StateMachine → ℕ → PendingRequest → PendingResponse → StateMachine × List Resumed
respond s index pending response =
    let answered = record pending { response = response } in
    (
      record s { pending_requests = put ℕ_discrete index answered s.pending_requests },
      resume answered,
    )

-- The `switch` of `apply_entry`, on a command that was parsed.
abbrev pub apply_command :
    StateMachine → ℕ → PendingRequest → EntryCommand → ℕ → StateMachine × List Resumed
apply_command s index pending EntryCommand.type_not_set current_ms = (s, resume pending)
apply_command s index pending (EntryCommand.mkdir request) current_ms =
    let (t, response) = mkdir_reply s request (mutable_mkdir pending.response) in
    respond t index pending (PendingResponse.mkdir response)
apply_command s index pending (EntryCommand.upload_file request) current_ms =
    let (t, response) =
      upload_file_reply s request current_ms (mutable_upload_file pending.response) in
    respond t index pending (PendingResponse.upload_file response)

-- The `switch` of `apply_entry_no_response`.
abbrev pub apply_command_no_response : StateMachine → EntryCommand → ℕ → StateMachine
apply_command_no_response s EntryCommand.type_not_set current_ms = s
apply_command_no_response s (EntryCommand.mkdir request) current_ms = mkdir s request
apply_command_no_response s (EntryCommand.upload_file request) current_ms =
    upload_file s request current_ms

module _ (parse_command : Str → Option EntryCommand) where
  -- `void apply_entry(const LogEntry&)`
  unfoldable pub apply_entry : StateMachine → LogEntry → ℕ → StateMachine × List Resumed
  unfolding access put
  apply_entry s entry current_ms =
      let (requests, pending) = access ℕ_discrete entry.index no_request s.pending_requests in
      let t = record s { pending_requests = requests } in
      elim (parse_command entry.command) [
        | none ↦ (t, resume pending)
        | some command ↦ apply_command t entry.index pending command current_ms
      ]

  -- `void apply_entry_no_response(const LogEntry&)`
  unfoldable pub apply_entry_no_response : StateMachine → LogEntry → ℕ → StateMachine
  apply_entry_no_response s entry current_ms = elim (parse_command entry.command) [
    | none ↦ s
    | some command ↦ apply_command_no_response s command current_ms
  ]
