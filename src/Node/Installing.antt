-- ===== src/Node/Installing.antt =====
-- The transfer of a snapshot: `send_snapshot` and the two handlers of `installsnapshot`.
use vosfs.Common.{
  ℕ, ◌++◌, [], Bool, true, false, Option, none, some, Str, ◌==◌, ltb, not, if◌then◌else◌, ◌>>=◌,
}
use vosfs.Common.Result.{ok, err}
use vosfs.Api.{InstallSnapshotRequest, InstallSnapshotResponse}
use vosfs.StateMachine.Defs
use vosfs.RaftLog.Defs.{load_snapshot}
use vosfs.Snapshotter.Defs.{offset_at, load_snapshot_data}
use vosfs.Node.Defs.{World, Node}
use vosfs.Node.Terms.{increase_term_to}

-- `snapshot_data_.empty()`
abbrev pub is_empty : Str → Bool
is_empty [] = true
is_empty _ = false

-- `make_install_snapshot_request`
abbrev pub make_install_snapshot_request : ℕ → ℕ → ℕ → ℕ → InstallSnapshotRequest
make_install_snapshot_request term leader_id last_included_index last_included_term = record {
  term = term;
  leader_id = leader_id;
  last_included_index = last_included_index;
  last_included_term = last_included_term;
  offset = 0;
  payload = [];
  done = false;
}

-- `make_install_snapshot_response`
abbrev pub respond_install : {DB FS : Type 0} → Node DB FS → InstallSnapshotResponse
respond_install n = record { id = n.member_id; term = n.hard_state.current_term }

module _ {DB FS : Type 0} (w : World DB FS) where
  -- `RaftNode::send_snapshot`: the request that goes to the member, if one does.
  unfoldable pub send_snapshot :
      ℕ → Node DB FS → Option (Node DB FS × Option InstallSnapshotRequest)
  unfolding offset_at load_snapshot_data
  send_snapshot member_id n = if is_empty n.snapshot_data then some (n, none) else (do
    (looked, offset) ← offset_at n.snapshotter member_id
    (if not (offset == 0) then some (record n { snapshotter = looked }, none) else (do
      (loaded, request, result) ←
          load_snapshot_data w.files w.snapshot_codec looked n.fs member_id (
            make_install_snapshot_request n.hard_state.current_term n.member_id
              n.logs.last_included_index n.logs.last_included_term)
      some (
        record n { snapshotter = loaded },
        elim result [ err e ↦ none | ok done ↦ some request ],
      ))))

  -- The chunk joins `snapshot_data_`, and the last one is parsed and loaded.
  unfoldable pub accept_chunk : ℕ → InstallSnapshotRequest → Node DB FS → Node DB FS
  unfolding load_snapshot Defs.load_snapshot
  accept_chunk now request given =
      let n = record given {
        leader_id = some request.leader_id;
        last_reset_time = now;
        snapshot_data =
            (if request.offset == 0 then [] else given.snapshot_data) ++ request.payload;
      } in
      if not request.done then n else elim (w.snapshot_codec.parse n.snapshot_data) [
        | none ↦ record n { snapshot_data = [] }
        | some snapshot ↦ record n {
          logs = load_snapshot n.logs snapshot;
          state_machine = Defs.load_snapshot n.state_machine snapshot;
        }
      ]

  -- `RaftNode::handle_install_snapshot_request`
  unfoldable pub handle_install_snapshot_request :
      ℕ → InstallSnapshotRequest → Node DB FS → Option (Node DB FS × InstallSnapshotResponse)
  unfolding accept_chunk increase_term_to
  handle_install_snapshot_request now request n =
      if ltb request.term n.hard_state.current_term
      then some (n, respond_install n)
      else if ltb n.hard_state.current_term request.term
      then (do
        raised ← increase_term_to w now request.term n
        let accepted = accept_chunk now request raised
        some (accepted, respond_install accepted))
      else (let accepted = accept_chunk now request n in some (accepted, respond_install accepted))

  -- `RaftNode::handle_install_snapshot_response`
  unfoldable pub handle_install_snapshot_response :
      ℕ → InstallSnapshotResponse → Node DB FS → Option (Node DB FS × Option InstallSnapshotRequest)
  unfolding send_snapshot increase_term_to
  handle_install_snapshot_response now response n =
      if ltb n.hard_state.current_term response.term
      then (increase_term_to w now response.term n >>= λ raised. some (raised, none))
      else send_snapshot response.id n
