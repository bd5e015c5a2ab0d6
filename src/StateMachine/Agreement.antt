-- ===== src/StateMachine/Agreement.antt =====
-- The leader, which answers requests, and the followers, which do not, build the same file tree.
use vosfs.Common.{
  ℕ, ◌≡◌, refl, ap, sym, ◌∙◌, ◌∷◌, [], List, Option, Str, arith, inl, inr, Option-cases,
}
use vosfs.Api.{
  MakeDirRequest, UploadFileRequest, EntryCommand, LogEntry, mutable_mkdir, mutable_upload_file,
}
use vosfs.StateMachine.Defs.{StateMachine, PendingRequest}
use vosfs.StateMachine.Mkdir.{mkdir, add_dir, mkdir_reply-mkdir}
use vosfs.StateMachine.Upload.{upload_file, add_file, upload_file_reply-upload_file}
use vosfs.StateMachine.Apply.{
  apply_command, apply_command_no_response, apply_entry, apply_entry_no_response,
}

-- All of the state but the suspended requests.
abbrev pub tree : StateMachine → StateMachine
tree s = record s { pending_requests = [] }

tree-mkdir :
    (s : StateMachine) (request : MakeDirRequest) → tree (mkdir s request) ≡ mkdir (tree s) request
unfolding mkdir add_dir
tree-mkdir s request = ground arith

tree-upload_file :
    (s : StateMachine) (request : UploadFileRequest) (current_ms : ℕ)
    → tree (upload_file s request current_ms) ≡ upload_file (tree s) request current_ms
unfolding upload_file add_file
tree-upload_file s request current_ms = ground arith

tree-quiet_command :
    (s : StateMachine) (command : EntryCommand) (current_ms : ℕ)
    → tree (apply_command_no_response s command current_ms)
      ≡ apply_command_no_response (tree s) command current_ms
tree-quiet_command s EntryCommand.type_not_set current_ms = refl
tree-quiet_command s (EntryCommand.mkdir request) current_ms = tree-mkdir s request
tree-quiet_command s (EntryCommand.upload_file request) current_ms =
    tree-upload_file s request current_ms

tree-command :
    (s : StateMachine) (index : ℕ) (pending : PendingRequest) (command : EntryCommand)
    (current_ms : ℕ)
    → tree (apply_command s index pending command current_ms).0
      ≡ apply_command_no_response (tree s) command current_ms
tree-command s index pending EntryCommand.type_not_set current_ms = refl
tree-command s index pending (EntryCommand.mkdir request) current_ms =
    ap tree (mkdir_reply-mkdir s request (mutable_mkdir pending.response)) ∙ tree-mkdir s request
tree-command s index pending (EntryCommand.upload_file request) current_ms =
    ap tree
      (upload_file_reply-upload_file s request current_ms (mutable_upload_file pending.response))
    ∙ tree-upload_file s request current_ms

module _ (parse_command : Str → Option EntryCommand) where
  -- Entries that are applied one after the other, each at its own time.
  pub lead : StateMachine → List (LogEntry × ℕ) → StateMachine
  lead s [] = s
  lead s ((entry, current_ms) ∷ log) = lead (apply_entry parse_command s entry current_ms).0 log

  pub follow : StateMachine → List (LogEntry × ℕ) → StateMachine
  follow s [] = s
  follow s ((entry, current_ms) ∷ log) =
      follow (apply_entry_no_response parse_command s entry current_ms) log

  tree-apply_entry :
      (s t : StateMachine) (entry : LogEntry) (current_ms : ℕ)
      → tree s ≡ tree t
      → tree (apply_entry parse_command s entry current_ms).0
        ≡ tree (apply_entry_no_response parse_command t entry current_ms)
  unfolding apply_entry apply_entry_no_response
  tree-apply_entry s t entry current_ms same = elim (Option-cases (parse_command entry.command)) [
    | inl e ↦ rw (e, apply_entry, apply_entry_no_response) same
    | inr (command, e) ↦
        rw (e, apply_entry, apply_entry_no_response)
          (tree-command _ entry.index _ command current_ms
            ∙ ap (λ (u : StateMachine). apply_command_no_response u command current_ms) same
            ∙ sym (tree-quiet_command t command current_ms))
  ]

  -- A leader and a follower that start from the same tree and apply the same entries, reading the
  -- same times from their clocks, end with the same tree, data nodes and next inode number.
  pub lead-follow :
      (s t : StateMachine) (log : List (LogEntry × ℕ))
      → tree s ≡ tree t
      → tree (lead s log) ≡ tree (follow t log)
  unfolding lead follow
  lead-follow s t [] same = same
  lead-follow s t ((entry, current_ms) ∷ log) same =
      lead-follow (apply_entry parse_command s entry current_ms).0
        (apply_entry_no_response parse_command t entry current_ms) log
        (tree-apply_entry s t entry current_ms same)
