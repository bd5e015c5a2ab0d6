-- ===== src/Node/Heartbeats.antt =====
-- One round of `heartbeat_loop`.
use vosfs.Common.{
  ℕ, ◌∷◌, ◌++◌, [], List, Bool, false, Option, none, some, ◌==◌, leb, not, if◌then◌else◌, add64,
  sub64, min, ◌>>=◌,
}
use vosfs.Common.Map.{Map}
use vosfs.Api.{AppendEntriesRequest, InstallSnapshotRequest}
use vosfs.RaftLog.Defs.{last_log_index, get_term, get_entries}
use vosfs.Node.Defs.{World, Node, is_leader}
use vosfs.Node.Installing.{send_snapshot}

-- `MAX_APPEND_ENTRIES_SIZE` of include/vosfs/raft/config.hpp
abbrev pub max_append_entries_size : ℕ
max_append_entries_size = 64

-- The requests of a round, with the members they go to.
pub record Round : Type 0 where
  pub appends : List (ℕ × AppendEntriesRequest)
  pub installs : List (ℕ × InstallSnapshotRequest)

abbrev pub no_requests : Round
no_requests = record { appends = []; installs = [] }

-- The request to the member whose next index is given: the entries it lacks, or none.
unfoldable pub append_request_to : {DB FS : Type 0} → Node DB FS → ℕ → Option AppendEntriesRequest
unfolding get_term get_entries
append_request_to n next_index = do
  entries ←
      (if leb next_index (last_log_index n.logs)
        then get_entries n.logs next_index
            (min max_append_entries_size (add64 (sub64 (last_log_index n.logs) next_index) 1))
        else some [])
  prev_log_term ← get_term n.logs (sub64 next_index 1)
  some (record {
    term = n.hard_state.current_term;
    leader_id = n.member_id;
    prev_log_index = sub64 next_index 1;
    prev_log_term = prev_log_term;
    entries = entries;
    leader_commit = n.commit_index;
  })

-- The member needs entries that only a snapshot holds.
abbrev pub needs_snapshot : {DB FS : Type 0} → Node DB FS → ℕ → Bool
needs_snapshot n next_index =
    if leb next_index (last_log_index n.logs)
    then leb next_index n.logs.last_included_index
    else false

module _ {DB FS : Type 0} (w : World DB FS) where
  -- One member of the loop over `next_index_`.
  unfoldable pub heartbeat_to : ℕ → ℕ → Node DB FS → Option (Node DB FS × Round)
  unfolding append_request_to send_snapshot
  heartbeat_to member_id next_index n =
      if member_id == n.member_id
      then some (n, no_requests)
      else if needs_snapshot n next_index
      then (do
        (sent, request) ← send_snapshot w member_id n
        some (
          sent,
          elim request [
            | none ↦ no_requests
            | some r ↦ record { appends = []; installs = (member_id, r) ∷ [] }
          ],
        ))
      else (do
        request ← append_request_to n next_index
        some (n, record { appends = (member_id, request) ∷ []; installs = [] }))

  -- The loop over `next_index_`.
  unfoldable pub heartbeats : Map ℕ ℕ → Node DB FS → Option (Node DB FS × Round)
  unfolding heartbeat_to
  heartbeats [] n = some (n, no_requests)
  heartbeats ((member_id, next_index) ∷ members) n = do
    (next, round) ← heartbeat_to member_id next_index n
    (last, rest) ← heartbeats members next
    some (
      last,
      record {
        appends = round.appends ++ rest.appends;
        installs = round.installs ++ rest.installs;
      },
    )

  -- The body of `heartbeat_loop` after its sleep.
  unfoldable pub heartbeat_round : Node DB FS → Option (Node DB FS × Round)
  unfolding heartbeats
  heartbeat_round n =
      if not (is_leader n.role) then some (n, no_requests) else heartbeats n.next_index n
