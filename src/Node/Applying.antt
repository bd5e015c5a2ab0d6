-- ===== src/Node/Applying.antt =====
-- `RaftNode::apply_entry`. `current_ms` is the clock of the state machine.
use vosfs.Common.{
  ℕ, zero, suc, ◌-◌, ◌%◌, ◌++◌, [], List, Option, some, ◌==◌, if◌then◌else◌, add64, ◌>>=◌,
}
use vosfs.Common.Result.{ok, err}
use vosfs.Api.{LogEntry, Snapshot, default_snapshot}
use vosfs.StateMachine.Defs.{take_snapshot}
use vosfs.StateMachine.Apply.{Resumed, apply_entry, apply_entry_no_response}
use vosfs.RaftLog.Defs.{get_entry, get_term, load_snapshot}
use vosfs.Snapshotter.Defs.{save_snapshot}
use vosfs.Node.Defs.{World, Node, is_leader}

-- `SNAPSHOT_INTERVAL` of include/vosfs/raft/config.hpp
abbrev pub snapshot_interval : ℕ
snapshot_interval = 10

-- A `Snapshot` that was moved from: its move constructor swaps it with an empty one.
abbrev pub moved_from : Snapshot → Snapshot
moved_from snapshot = default_snapshot

module _ {DB FS : Type 0} (w : World DB FS) where
  -- The entry goes to the state machine, with or without responses.
  unfoldable pub apply_to_state_machine : ℕ → LogEntry → Node DB FS → Node DB FS × List Resumed
  unfolding apply_entry apply_entry_no_response
  apply_to_state_machine current_ms entry n =
      if is_leader n.role
      then (let (s, resumed) = apply_entry w.command_codec.parse n.state_machine entry current_ms in
          (record n { state_machine = s }, resumed))
      else (
        record n {
          state_machine =
              apply_entry_no_response w.command_codec.parse n.state_machine entry current_ms;
        },
        [],
      )

  -- The snapshot after every tenth entry. The log loads the snapshot that was moved from.
  unfoldable pub save_every_tenth : Node DB FS → Option (Node DB FS)
  save_every_tenth n =
      if n.last_applied % snapshot_interval == 0
      then (do
        last_included_term ← get_term n.logs n.last_applied
        let snapshot = take_snapshot n.state_machine (record default_snapshot {
          last_included_index = n.last_applied;
          last_included_term = last_included_term;
        })
        (snapshotter, fs, saved) ←
            save_snapshot w.files w.snapshot_codec n.snapshotter n.fs snapshot
        some (record n {
          snapshotter = snapshotter;
          fs = fs;
          logs = elim saved [
            | err e ↦ n.logs
            | ok done ↦ load_snapshot n.logs (moved_from snapshot)
          ];
        }))
      else some n

  -- One round of the loop.
  unfoldable pub apply_next : ℕ → Node DB FS → Option (Node DB FS × List Resumed)
  apply_next current_ms given = do
    let n = record given { last_applied = add64 given.last_applied 1 }
    entry ← get_entry n.logs n.last_applied
    let (applied, resumed) = apply_to_state_machine current_ms entry n
    saved ← save_every_tenth applied
    some (saved, resumed)

  -- The loop, with the rounds that are left.
  unfoldable pub apply_rounds : ℕ → ℕ → Node DB FS → Option (Node DB FS × List Resumed)
  apply_rounds zero current_ms n = some (n, [])
  apply_rounds (suc rounds) current_ms n = do
    (next, resumed) ← apply_next current_ms n
    (last, more) ← apply_rounds rounds current_ms next
    some (last, resumed ++ more)

  -- `RaftNode::apply_entry`
  unfoldable pub apply_committed : ℕ → Node DB FS → Option (Node DB FS × List Resumed)
  unfolding apply_rounds apply_next
  apply_committed current_ms n = apply_rounds (n.commit_index - n.last_applied) current_ms n
