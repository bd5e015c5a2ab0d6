-- ===== src/Node/Unsent.antt =====
-- What a leader sends: requests to append entries, and no snapshot.
use vosfs.Common.{
  ℕ, ◌∷◌, [], ◌++◌, true, false, Option, none, some, ◌≡◌, refl, ap, subst, ◌∙◌, ◌⊎◌, inl, inr, ◌==◌,
  arith, All, All-append, All-map, if-ways, >>=-eq-some, some-same,
}
use vosfs.Common.Map.{Map}
use vosfs.Api.{AppendEntriesRequest, InstallSnapshotRequest, InstallSnapshotResponse}
use vosfs.Snapshotter.Defs.{Snapshotter, offset_at, load_snapshot_data}
use vosfs.Node.Defs.{World, Node, is_leader}
use vosfs.Node.Installing.{send_snapshot, handle_install_snapshot_response}
use vosfs.Node.Heartbeats.{
  Round, no_requests, append_request_to, needs_snapshot, heartbeat_to, heartbeats, heartbeat_round,
}

-- The request is the one for a member of the map whose next entries are still in the log.
abbrev pub IsMeant : {DB FS : Type 0} → Node DB FS → Map ℕ ℕ → ℕ × AppendEntriesRequest → Type 0
IsMeant n [] a = ⊥
IsMeant n ((member_id, next_index) ∷ members) a =
    ((a.0 ≡ member_id)
      × (needs_snapshot n next_index ≡ false)
      × (append_request_to n next_index ≡ some a.1))
    ⊎ IsMeant n members a

module _ {DB FS : Type 0} (w : World DB FS) where
  -- `offset_at` leaves the mutex locked on which `load_snapshot_data` then waits.
  send_snapshot-none :
      (member_id : ℕ) (n m : Node DB FS) (request : Option InstallSnapshotRequest)
      → send_snapshot w member_id n ≡ some (m, request)
      → (request ≡ none) × (m ≡ record n { snapshotter = m.snapshotter })
  unfolding send_snapshot offset_at load_snapshot_data
  send_snapshot-none member_id n m request h = ground arith

  -- The node is the one before but for its snapshotter, and the round has no snapshot and only
  -- requests that are meant for the members.
  abbrev IsQuiet : Node DB FS → Map ℕ ℕ → Node DB FS × Round → Type 0
  IsQuiet n members p =
      (p.0 ≡ record n { snapshotter = p.0.snapshotter })
      × (p.1.installs ≡ [])
      × All (IsMeant n members) p.1.appends

  sent-IsQuiet :
      (n : Node DB FS) (members : Map ℕ ℕ) (m : Node DB FS) (member_id : ℕ)
      (request : Option InstallSnapshotRequest)
      → request ≡ none
      → m ≡ record n { snapshotter = m.snapshotter }
      → IsQuiet n members (
        m,
        elim request [
          | none ↦ no_requests
          | some r ↦ record { appends = []; installs = (member_id, r) ∷ [] }
        ],
      )
  sent-IsQuiet n members m member_id none nothing kept = (kept, refl, tt)
  sent-IsQuiet n members m member_id (some r) nothing kept = cc

  heartbeat_to-IsQuiet :
      (member_id next_index : ℕ) (n : Node DB FS) (s : Snapshotter) (p : Node DB FS × Round)
      → heartbeat_to w member_id next_index (record n { snapshotter = s }) ≡ some p
      → IsQuiet n ((member_id, next_index) ∷ []) p
  unfolding heartbeat_to append_request_to
  heartbeat_to-IsQuiet member_id next_index n s p h =
      elim (if-ways (member_id == n.member_id) _ _ (some p) h) [
        | inl (_, same) ↦
            subst (IsQuiet n ((member_id, next_index) ∷ [])) (some-same same) (refl, refl, tt)
        | inr (_, rest) ↦ elim (if-ways (needs_snapshot n next_index) _ _ (some p) rest) [
          | inl (_, sends) ↦
              (let ((m, request), sent, end) =
                  >>=-eq-some (send_snapshot w member_id (record n { snapshotter = s })) _ sends in
                let (nothing, kept) = send_snapshot-none member_id _ m request sent in
                subst (IsQuiet n ((member_id, next_index) ∷ [])) (some-same end)
                  (sent-IsQuiet n ((member_id, next_index) ∷ []) m member_id request nothing kept))
          | inr (held, appends) ↦
              (let (request, made, end) = >>=-eq-some (append_request_to n next_index) _ appends in
                subst (IsQuiet n ((member_id, next_index) ∷ [])) (some-same end)
                  (refl, refl, (inl (refl, held, made), tt)))
        ]
      ]

  heartbeats-IsQuiet :
      (members : Map ℕ ℕ) (n : Node DB FS) (s : Snapshotter) (p : Node DB FS × Round)
      → heartbeats w members (record n { snapshotter = s }) ≡ some p
      → IsQuiet n members p
  unfolding heartbeats
  heartbeats-IsQuiet [] n s p h = subst (IsQuiet n []) (some-same h) (refl, refl, tt)
  heartbeats-IsQuiet ((member_id, next_index) ∷ members) n s p h =
      let ((next, round), first, more) =
        >>=-eq-some (heartbeat_to w member_id next_index (record n { snapshotter = s })) _ h in
      let ((last, rest), others, end) = >>=-eq-some (heartbeats w members next) _ more in
      let (kept, none_first, meant) =
        heartbeat_to-IsQuiet member_id next_index n s (next, round) first in
      let (same, none_rest, meant_rest) =
        heartbeats-IsQuiet members n next.snapshotter (last, rest)
          (subst (λ k. heartbeats w members k ≡ some (last, rest)) kept others) in
      let all = IsMeant n ((member_id, next_index) ∷ members) in
      subst (IsQuiet n ((member_id, next_index) ∷ members)) (some-same end) (
        same,
        ap (λ r. r ++ rest.installs) none_first ∙ none_rest,
        All-append all round.appends rest.appends
            (All-map (IsMeant n ((member_id, next_index) ∷ [])) all round.appends
              (λ a m. elim m [ inl x ↦ inl x | inr e ↦ absurd e ]) meant)
            (All-map (IsMeant n members) all rest.appends (λ a m. inr m) meant_rest),
      )

  -- A round of heartbeats of a leader, where it returns, sends no snapshot, and neither does
  -- the handler of an answer to one, where it returns, on whatever node. Each request that the
  -- round sends goes to a member whose next entries are not covered by the snapshot of the log,
  -- and is the one that the leader makes for the next index of the member.
  pub heartbeat_round-installs :
      (now : ℕ) (n m k k' : Node DB FS) (round : Round) (response : InstallSnapshotResponse)
      (request : Option InstallSnapshotRequest)
      → is_leader n.role ≡ true
      → heartbeat_round w n ≡ some (m, round)
      → handle_install_snapshot_response w now response k ≡ some (k', request)
      → (round.installs ≡ []) × (request ≡ none) × All (IsMeant n n.next_index) round.appends
  unfolding heartbeat_round handle_install_snapshot_response
  heartbeat_round-installs now n m k k' round response request leads sends answers =
      let rounds : heartbeats w n.next_index n ≡ some (m, round) = ground (arith, leads, sends) in
      let (_, no_installs, meant) =
        heartbeats-IsQuiet n.next_index n n.snapshotter (m, round) rounds in
      (no_installs, ground (arith, answers, send_snapshot-none response.id k k' request), meant)
