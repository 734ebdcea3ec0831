-- ===== src/Raft/Passive/Heartbeat.antt =====
-- What a heartbeat does to the view and the epoch, in the terms that the four roles share which
-- follow a leader (follower.go, idle.go, invalid.go and learner.go of internal/election/raft).
use neoha.Raft.Passive.{
  follow_view, follow_epoch, view_diff, epoch_diff, is_positive, prepare_replica, Raft,
  demote_read_only, Request, update_view, update_epoch, replica_heartbeat, Response, Db,
  heartbeat_answer, call, DbCall,
}
use neoha.Common.{◌≤◌, ◌≡◌, ◌<◌, false, ◌⊎◌, ◌^◌, ◌+◌, arith, Bool, contains, true}
use neoha.Raft.Members.{update_epoch}
use neoha.Raft.State.{update_view}
use neoha.Raft.Database.{demote_read_only}
use neoha.Raft.State.Views.{int_diff_near, int_diff-Reading}
use neoha.Raft.Wire.{RetCode}

-- The vote, the view and the epoch are untouched.
abbrev pub Keeps : Raft → Raft → Type 0
Keeps r s = (s.meta ≡ r.meta) × (s.voted_for ≡ r.voted_for) × (s.peers ≡ r.peers) × (s.id ≡ r.id)

pub demote_read_only-Keeps : (r : Raft) → Keeps r (demote_read_only r)
unfolding demote_read_only
demote_read_only-Keeps r = ground arith

pub prepare_replica-Keeps : (b : Bool) (r : Raft) → Keeps r (prepare_replica b r)
unfolding prepare_replica demote_read_only
prepare_replica-Keeps b r = ground arith

-- The vote of a view stands while the view does, and a newer view starts without one.
abbrev pub VoteStands : Raft → Raft → Type 0
VoteStands r s =
    ((s.meta.view_id ≡ r.meta.view_id) × (s.voted_for ≡ r.voted_for))
    ⊎ ((r.meta.view_id < s.meta.view_id) × (s.voted_for ≡ ""))

-- The numbers of a message and of a node, as uint64 values that are less than 2 ^ 63 apart.
pub record IsNear (q : Request) (r : Raft) : Type 0 where
  pub view_fits : r.meta.view_id < 2 ^ 64
  pub asked_view_fits : q.view_id < 2 ^ 64
  pub epoch_fits : r.meta.epoch_id < 2 ^ 64
  pub asked_epoch_fits : q.epoch_id < 2 ^ 64
  pub view_above : r.meta.view_id < q.view_id + 2 ^ 63
  pub view_below : q.view_id < r.meta.view_id + 2 ^ 63

-- A heartbeat that is followed: the node ends in the view and the epoch of the sender.
abbrev pub Followed : Request → Raft → Raft → Type 0
Followed q r s =
    (r.meta.view_id ≤ q.view_id)
    × (s.meta.view_id ≡ q.view_id)
    × (s.meta.epoch_id ≡ q.epoch_id)
    × VoteStands r s

follow_view_lem :
    (q : Request) (r s : Raft)
    → IsNear q r
    → s.meta ≡ r.meta
    → s.voted_for ≡ r.voted_for
    → is_positive (view_diff r q) ≡ false
    → (r.meta.view_id ≤ q.view_id)
      × ((follow_view (view_diff r q) q s).meta.view_id ≡ q.view_id)
      × ((follow_view (view_diff r q) q s).meta.epoch_id ≡ r.meta.epoch_id)
      × VoteStands r (follow_view (view_diff r q) q s)
unfolding follow_view update_view
follow_view_lem q r s near m v p = ground (
  arith,
  int_diff_near r.meta.view_id q.view_id near.view_fits near.asked_view_fits near.view_above
      near.view_below,
)

follow_epoch_lem :
    (q : Request) (r s : Raft)
    → IsNear q r
    → s.meta.epoch_id ≡ r.meta.epoch_id
    → (follow_epoch (epoch_diff r q) q s).meta.epoch_id ≡ q.epoch_id
unfolding follow_epoch update_epoch
follow_epoch_lem q r s near m =
    ground
      (arith, int_diff-Reading r.meta.epoch_id q.epoch_id near.epoch_fits near.asked_epoch_fits)

follow_epoch-VoteStands :
    (d : _) (q : Request) (s : Raft)
    → ((follow_epoch d q s).meta.view_id ≡ s.meta.view_id)
      × ((follow_epoch d q s).voted_for ≡ s.voted_for)
unfolding follow_epoch update_epoch
follow_epoch-VoteStands d q s = ground arith

pub follow-Followed :
    (q : Request) (r s : Raft)
    → IsNear q r
    → s.meta ≡ r.meta
    → s.voted_for ≡ r.voted_for
    → is_positive (view_diff r q) ≡ false
    → Followed q r (follow_epoch (epoch_diff r q) q (follow_view (view_diff r q) q s))
follow-Followed q r s near m v p =
    let viewed = follow_view_lem q r s near m v p in
    let s' = follow_view (view_diff r q) q s in
    let kept = follow_epoch-VoteStands (epoch_diff r q) q s' in
    let e = follow_epoch_lem q r s' near viewed.2 in ground arith

-- The answers of Idle and Invalid to a heartbeat, with what became of the node. One that is stale
-- is answered with OK too, and changes nothing.
abbrev pub ReplicaOutcome : Request → Raft → Response × Raft → Type 0
ReplicaOutcome q r (rsp, s) = elim rsp.ret_code [
  | RetCode.ok ↦
      (contains q.from r.peers ≡ true) × (Followed q r s ⊎ ((q.view_id < r.meta.view_id) × (s ≡ r)))
  | RetCode.error_change_master ↦ (contains q.from r.peers ≡ true) × Keeps r s
  | RetCode.error_invalid_request ↦ (contains q.from r.peers ≡ false) × (s ≡ r)
  | _ ↦ ⊥
]

pub replica_heartbeat-ReplicaOutcome :
    (b : Bool) (f : Response → Response) (db : Db) (q : Request) (r : Raft)
    → ((rsp : Response) → (f rsp).ret_code ≡ RetCode.error_change_master)
    → IsNear q r
    → ReplicaOutcome q r (replica_heartbeat b f db q r)
unfolding replica_heartbeat
replica_heartbeat-ReplicaOutcome b f db q r hf near =
    let ready = prepare_replica b r in
    let k = prepare_replica-Keeps b r in
    ground (
      arith,
      k,
      hf (heartbeat_answer db r),
      follow-Followed q r ready near,
      follow-Followed q r (record (call (DbCall.change_master_to q.repl) ready) { leader = q.from })
          near,
      int_diff_near r.meta.view_id q.view_id near.view_fits near.asked_view_fits near.view_above
          near.view_below,
    )
