-- ===== src/StateMachine/Pending.antt =====
-- The suspended requests that wait for their log entry.
use vosfs.Common.{
  ℕ, ◌≡◌, refl, sym, ◌∙◌, ◌∷◌, [], List, Option, none, some, Str, map, arith, inl, inr, ℕ_discrete,
  Option-cases,
}
use vosfs.Common.Map.{Map, find, access, put, emplace, find-put}
use vosfs.Api.{EntryCommand, LogEntry, PendingResponse}
use vosfs.StateMachine.Defs.{StateMachine, PendingRequest, append_request}
use vosfs.StateMachine.Apply.{Resumed, apply_command, apply_entry, no_request, resume}

-- The requests that an application of an entry lets go on.
abbrev pub resumed : List Resumed → List ℕ
resumed = map λ r. r.request

-- The handles at an index, as a list.
abbrev pub waiting_in : Map ℕ PendingRequest → ℕ → List ℕ
waiting_in requests index = elim (find ℕ_discrete index requests) [
  | none ↦ []
  | some p ↦ elim p.handle [ none ↦ [] | some h ↦ h ∷ [] ]
]

abbrev pub waiting : StateMachine → ℕ → List ℕ
waiting s index = waiting_in s.pending_requests index

command-resumed :
    (s : StateMachine) (index : ℕ) (pending : PendingRequest) (command : EntryCommand)
    (current_ms : ℕ)
    → resumed (apply_command s index pending command current_ms).1 ≡ resumed (resume pending)
command-resumed s index pending EntryCommand.type_not_set current_ms = refl
command-resumed s index pending (EntryCommand.mkdir request) current_ms = ground arith
command-resumed s index pending (EntryCommand.upload_file request) current_ms = ground arith

resumed-access :
    (s : StateMachine) (index : ℕ)
    → resumed (resume (access ℕ_discrete index no_request s.pending_requests).1) ≡ waiting s index
unfolding access
resumed-access s index = ground arith

waiting-access :
    (requests : Map ℕ PendingRequest) (index : ℕ)
    → waiting_in (access ℕ_discrete index no_request requests).0 index ≡ waiting_in requests index
unfolding access find
waiting-access requests index = ground arith

waiting-put :
    (requests : Map ℕ PendingRequest) (index : ℕ) (p : PendingRequest)
    → waiting_in (put ℕ_discrete index p requests) index ≡ resumed (resume p)
waiting-put requests index p = ground (arith, find-put ℕ_discrete index index p requests)

resumed-response :
    (p : PendingRequest) (r : PendingResponse)
    → resumed (resume (record p { response = r })) ≡ resumed (resume p)
resumed-response p r = ground arith

command-waiting :
    (s : StateMachine) (index : ℕ) (pending : PendingRequest) (command : EntryCommand)
    (current_ms : ℕ)
    → waiting s index ≡ resumed (resume pending)
    → waiting (apply_command s index pending command current_ms).0 index ≡ resumed (resume pending)
command-waiting s index pending EntryCommand.type_not_set current_ms h = h
command-waiting s index pending (EntryCommand.mkdir request) current_ms h =
    waiting-put _ index _ ∙ resumed-response pending _
command-waiting s index pending (EntryCommand.upload_file request) current_ms h =
    waiting-put _ index _ ∙ resumed-response pending _

module _ (parse_command : Str → Option EntryCommand) where
  -- An entry that is applied, whatever its command, lets exactly the request go on that waits at the
  -- entry's index, and none if no request waits there.
  pub apply_entry-resumed :
      (s : StateMachine) (entry : LogEntry) (current_ms : ℕ)
      → resumed (apply_entry parse_command s entry current_ms).1 ≡ waiting s entry.index
  unfolding apply_entry
  apply_entry-resumed s entry current_ms = elim (Option-cases (parse_command entry.command)) [
    | inl e ↦ rw (e, apply_entry) (resumed-access s entry.index)
    | inr (command, e) ↦
        rw (e, apply_entry)
          (command-resumed _ entry.index _ command current_ms ∙ resumed-access s entry.index)
  ]

  apply_entry-waiting :
      (s : StateMachine) (entry : LogEntry) (current_ms : ℕ)
      → waiting (apply_entry parse_command s entry current_ms).0 entry.index ≡ waiting s entry.index
  unfolding apply_entry
  apply_entry-waiting s entry current_ms = elim (Option-cases (parse_command entry.command)) [
    | inl e ↦ rw (e, apply_entry) (waiting-access s.pending_requests entry.index)
    | inr (command, e) ↦
        rw (e, apply_entry)
          (command-waiting _ entry.index _ command current_ms
              (waiting-access s.pending_requests entry.index ∙ sym (resumed-access s entry.index))
            ∙ resumed-access s entry.index)
  ]

  append_request-waiting :
      (s : StateMachine) (index h : ℕ) (p : PendingRequest)
      → waiting s index ≡ h ∷ []
      → waiting (append_request s index p).0 index ≡ h ∷ []
  unfolding append_request emplace
  append_request-waiting s index h p e = ground arith

  -- An entry of `pending_requests_` outlives its request: once an entry was applied for which the
  -- request `h` waited, a later request that is suspended at the same index, as after the log was
  -- truncated, is not stored, and the entry that carries it lets `h` go on once more in its place.
  pub append_request-stale :
      (s : StateMachine) (entry again : LogEntry) (now later h : ℕ) (p : PendingRequest)
      → waiting s entry.index ≡ h ∷ []
      → again.index ≡ entry.index
      → resumed
          (apply_entry parse_command
            (append_request (apply_entry parse_command s entry now).0 entry.index p).0
            again
            later).1
        ≡ h ∷ []
  append_request-stale s entry again now later h p e same =
      apply_entry-resumed _ again later
      ∙ rw same (append_request-waiting _ entry.index h p (apply_entry-waiting s entry now ∙ e))
