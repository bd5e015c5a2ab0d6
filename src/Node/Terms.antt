-- ===== src/Node/Terms.antt =====
-- `RaftNode::increase_term_to` and `RaftNode::become_leader`. `now` is `util::current_ms()`.
use vosfs.Common.{ℕ, ◌∷◌, [], List, Option, none, some, add64, ◌>>=◌, ℕ_discrete}
use vosfs.Common.Map.{Map, put}
use vosfs.Snapshotter.Defs.{reset_offsets}
use vosfs.Persister.Defs.{save_hard_state}
use vosfs.RaftLog.Defs.{last_log_index}
use vosfs.Node.Defs.{World, Node, leader, follower}

-- `map[peer->id()] = value` over the peers
unfoldable pub put_all : List ℕ → ℕ → Map ℕ ℕ → Map ℕ ℕ
unfolding put
put_all [] v m = m
put_all (peer ∷ peers) v m = put_all peers v (put ℕ_discrete peer v m)

module _ {DB FS : Type 0} (w : World DB FS) where
  -- `persister_.save_hard_state(hard_state_)`
  unfoldable pub persist : Node DB FS → Option (Node DB FS)
  unfolding save_hard_state
  persist n = do
    db ← save_hard_state w.engine w.hard_state_codec n.db n.hard_state
    some (record n { db = db })

  -- `RaftNode::increase_term_to`
  unfoldable pub increase_term_to : ℕ → ℕ → Node DB FS → Option (Node DB FS)
  increase_term_to now term n = persist (record n {
    votes = 0;
    hard_state = record { current_term = term; voted_for = none };
    role = follower;
    last_reset_time = now;
  })

  -- `RaftNode::become_leader`
  unfoldable pub become_leader : Node DB FS → Option (Node DB FS)
  unfolding put_all reset_offsets
  become_leader n = do
    saved ← persist (record n {
      votes = 0;
      hard_state = record (n.hard_state) { voted_for = none };
      role = leader;
    })
    some (record saved {
      leader_id = some saved.member_id;
      next_index = put_all saved.peers (add64 (last_log_index saved.logs) 1) saved.next_index;
      match_index = put_all saved.peers 0 saved.match_index;
      snapshotter = reset_offsets saved.snapshotter;
    })
