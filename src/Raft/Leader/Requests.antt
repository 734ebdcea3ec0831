-- ===== src/Raft/Leader/Requests.antt =====
-- What the request handlers of internal/election/raft/leader.go promise.
use neoha.Raft.Leader.{
  process_request_vote, yield_by_gtid, yield_to, degrade_to_follower, demote_leader, update_view,
  Request, Db, demote_read_only, Raft, Response, set_state, answer, RetCode, got_vote_request, u64,
  process_heartbeat_response, process_heartbeat, got_heartbeat,
}
use neoha.Common.{
  ◌≡◌, arith, false, contains, true, ◌<◌, Option-cases, ◌+◌, inl, inr, ap, refl, ◌≤◌, ℕ,
}
use neoha.Raft.State.{update_view, set_state}
use neoha.Raft.Wire.{follower, RetCode, semi_sync}
use neoha.Raft.Database.{demote_read_only, promotable}
use neoha.Raft.Database.Frame.{promotable-SameButFlag}
use neoha.Raft.Passive.Heartbeat.{IsNear, VoteStands}
use neoha.Raft.State.Views.{int_diff_near}

-- What it means to have stepped down.
pub record HasSteppedDown (r s : Raft) : Type 0 where
  pub follows : s.state ≡ follower
  pub nobody : s.leader ≡ ""
  pub stopped : s.workers ≡ false
  pub semi_sync_stopped : r.conf.repl_mode ≡ semi_sync → s.semi_sync_worker ≡ false
  pub nothing_to_purge : s.next_purge_binlog ≡ ""
  pub marked : s.is_degrade_to_follower ≡ true
  pub vote_stands : s.voted_for ≡ r.voted_for
  pub meta_stands : s.meta ≡ r.meta
  pub counted : s.stats.leader_degrades ≡ u64 (r.stats.leader_degrades + 1)

-- A leader that steps down is a follower of nobody, has stopped its workers (that of semi-sync
-- in that mode) and has no binlog to purge, is marked as degraded and counted, and keeps its
-- vote, view, epoch and members.
pub degrade_to_follower-HasSteppedDown : (r : Raft) → HasSteppedDown r (degrade_to_follower r)
unfolding degrade_to_follower demote_leader demote_read_only set_state
degrade_to_follower-HasSteppedDown r = ground arith

-- What a granted and a refused vote mean for a leader.
abbrev pub Outcome : Request → Raft → Response × Raft → Type 0
Outcome q r (rsp, r') = elim rsp.ret_code [
  | RetCode.ok ↦
      (contains q.from r.peers ≡ true)
      × (r.meta.view_id < q.view_id)
      × (r'.voted_for ≡ q.from)
      × (r'.meta.view_id ≡ q.view_id)
      × (r'.state ≡ follower)
      × (r'.leader ≡ "")
  | _ ↦ (r'.state ≡ r.state) × (r'.meta ≡ r.meta) × (r'.voted_for ≡ r.voted_for)
]

yield_to-Outcome :
    (q : Request) (rsp : Response) (r : Raft)
    → rsp.ret_code ≡ RetCode.ok
    → contains q.from r.peers ≡ true
    → r.meta.view_id < q.view_id
    → Outcome q r (yield_to q rsp r)
unfolding yield_to update_view
yield_to-Outcome q rsp r k c h =
    ground (arith, degrade_to_follower-HasSteppedDown (update_view q.view_id "" r))

Outcome_frame :
    (q : Request) (r s : Raft) (x : Response × Raft)
    → s.voted_for ≡ r.voted_for
    → s.meta ≡ r.meta
    → s.state ≡ r.state
    → s.peers ≡ r.peers
    → Outcome q s x
    → Outcome q r x
Outcome_frame q r s x v m t p o = ground arith

yield_by_gtid-Outcome :
    (db : Db) (q : Request) (rsp : Response) (r : Raft)
    → rsp.ret_code ≡ RetCode.ok
    → contains q.from r.peers ≡ true
    → r.meta.view_id < q.view_id
    → Outcome q r (yield_by_gtid db q rsp r)
unfolding yield_by_gtid
yield_by_gtid-Outcome db q rsp r k c h = elim (Option-cases (db.gtid_greater_than q.gtid)) [
  | inl e ↦ rw (e, yield_by_gtid) (refl, refl, refl)
  | inr ((greater, mine), e) ↦
      let s = (promotable db r).1 in
      let same = promotable-SameButFlag db r in
      let v = ap (λ (s : Raft). s.voted_for) same in
      let m = ap (λ (s : Raft). s.meta) same in
      let t = ap (λ (s : Raft). s.state) same in
      let p = ap (λ (s : Raft). s.peers) same in
      let rsp' = record rsp { gtid = mine } in
      ground (
        arith,
        e,
        v,
        m,
        t,
        p,
        yield_to-Outcome q rsp' r,
        yield_to-Outcome q rsp' s,
        Outcome_frame q r s (yield_to q rsp' s) v m t p,
      )
]

-- A leader that answers a vote request with OK knows the sender, was in an earlier view, and is
-- now a follower of nobody that voted for the sender in the view of the request. With any other
-- answer its role, view, epoch, members and vote stand.
pub leader_vote-Outcome :
    (db : Db) (q : Request) (r : Raft) → Outcome q r (process_request_vote db q r)
unfolding process_request_vote
leader_vote-Outcome db q r =
    ground (arith, yield_by_gtid-Outcome db q (answer RetCode.ok r) (got_vote_request r))

-- What each answer to a heartbeat means for a leader.
abbrev pub Yields : Request → Raft → Response × Raft → Type 0
Yields q r (rsp, s) = elim rsp.ret_code [
  | RetCode.ok ↦
      (contains q.from r.peers ≡ true)
      × (r.meta.view_id ≤ q.view_id)
      × HasSteppedDown (got_heartbeat r) s
  | RetCode.error_invalid_view_id ↦
      (q.view_id < r.meta.view_id) × (s ≡ got_heartbeat r) × (rsp.leader ≡ r.leader)
  | RetCode.error_invalid_request ↦ (contains q.from r.peers ≡ false) × (s ≡ got_heartbeat r)
  | _ ↦ ⊥
]

-- At a heartbeat with counters near its own, a leader that answers OK knows the sender, was in
-- no later view, and has stepped down. A stranger or a sender in an older view is counted, and
-- changes nothing else.
pub leader_heartbeat-Yields :
    (q : Request) (r : Raft) → IsNear q r → Yields q r (process_heartbeat q r)
unfolding process_heartbeat
leader_heartbeat-Yields q r near = ground (
  arith,
  degrade_to_follower-HasSteppedDown (got_heartbeat r),
  int_diff_near r.meta.view_id q.view_id near.view_fits near.asked_view_fits near.view_above
      near.view_below,
)

pub process_heartbeat_response-VoteStands :
    (rsp : Response) (ack mgr : ℕ) (r : Raft)
    → VoteStands r (process_heartbeat_response rsp ack mgr r).2
unfolding process_heartbeat_response
process_heartbeat_response-VoteStands rsp ack mgr r =
    ground (arith, degrade_to_follower-HasSteppedDown r)
