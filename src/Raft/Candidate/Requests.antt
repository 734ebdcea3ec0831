-- ===== src/Raft/Candidate/Requests.antt =====
-- What the request handlers of internal/election/raft/candidate.go promise.
use neoha.Raft.Candidate.{
  process_heartbeat, process_request_vote, grant_by_gtid, grant_in_view, keep_up, Db, update_view,
  Request, set_state, Raft, Response, answer, promotable,
}
use neoha.Raft.Follower.Vote.Laws.{IsGrant, IsRefusal}
use neoha.Raft.State.{set_state, update_view}
use neoha.Raft.Wire.{RetCode, follower}
use neoha.Common.{
  ◌≡◌, arith, ◌≤◌, contains, str_eq_iff, true, Option-cases, inl, ◌<◌, false, inr, ap, refl, Bool,
  if◌then◌else◌,
}
use neoha.Raft.Passive.Heartbeat.{IsNear}
use neoha.Raft.State.Views.{int_diff_near}
use neoha.Raft.Database.Frame.{promotable-SameButFlag}

-- What a granted and a refused vote mean for a candidate.
abbrev pub Outcome : Request → Raft → Response × Raft → Type 0
Outcome q r (rsp, r') = elim rsp.ret_code [
  | RetCode.ok ↦ IsGrant q r r' × (r'.state ≡ follower) × (r'.leader ≡ "")
  | _ ↦ IsRefusal q r r' × (r'.state ≡ r.state)
]

grant_in_view-Outcome :
    (q : Request) (rsp : Response) (r : Raft)
    → rsp.ret_code ≡ RetCode.ok
    → r.meta.view_id ≤ q.view_id
    → Outcome q r (grant_in_view q rsp r)
unfolding grant_in_view update_view set_state
grant_in_view-Outcome q rsp r k h =
    ground (arith, str_eq_iff r.voted_for "", str_eq_iff r.voted_for q.from)

-- The two rounds of the handler: after `keep_up` the view is the request's.
keep_up-Outcome :
    (q : Request) (r s : Raft) (x : Response × Raft)
    → s.voted_for ≡ (keep_up q r).voted_for
    → s.meta ≡ (keep_up q r).meta
    → s.state ≡ (keep_up q r).state
    → r.meta.view_id ≤ q.view_id
    → Outcome q s x
    → Outcome q r x
unfolding keep_up update_view
keep_up-Outcome q r s x v m t h o = ground arith

keep_up-IsRefusal :
    (q : Request) (r s : Raft)
    → s.voted_for ≡ (keep_up q r).voted_for
    → s.meta ≡ (keep_up q r).meta
    → s.state ≡ (keep_up q r).state
    → IsRefusal q r s
      × (s.state ≡ r.state)
      × ((r.meta.view_id ≤ q.view_id) → s.meta.view_id ≤ q.view_id)
unfolding keep_up update_view
keep_up-IsRefusal q r s v m t = ground arith

-- The branch where the candidate has more data: it keeps up with the view, and then refuses or not.
kept_up-Outcome :
    (q : Request) (rsp : Response) (r s : Raft) (able : Bool)
    → rsp.ret_code ≡ RetCode.ok
    → r.meta.view_id ≤ q.view_id
    → s.voted_for ≡ (keep_up q r).voted_for
    → s.meta ≡ (keep_up q r).meta
    → s.state ≡ (keep_up q r).state
    → Outcome q r (
        if able
        then (record rsp { ret_code = RetCode.error_invalid_gtid }, s)
        else grant_in_view q rsp s)
kept_up-Outcome q rsp r s true k h v m t = let c = keep_up-IsRefusal q r s v m t in (c.0, c.1)
kept_up-Outcome q rsp r s false k h v m t =
    keep_up-Outcome q r s (grant_in_view q rsp s) v m t h
      (grant_in_view-Outcome q rsp s k ((keep_up-IsRefusal q r s v m t).2 h))

grant_by_gtid-Outcome :
    (db : Db) (q : Request) (rsp : Response) (r : Raft)
    → rsp.ret_code ≡ RetCode.ok
    → r.meta.view_id ≤ q.view_id
    → Outcome q r (grant_by_gtid db q rsp r)
unfolding grant_by_gtid
grant_by_gtid-Outcome db q rsp r k h = elim (Option-cases (db.gtid_greater_than q.gtid)) [
  | inl e ↦ rw (e, grant_by_gtid) (inl (refl, refl), refl)
  | inr ((true, mine), e) ↦
      let same = promotable-SameButFlag db (keep_up q r) in
      rw (e, grant_by_gtid)
        (kept_up-Outcome q (record rsp { gtid = mine }) r (promotable db (keep_up q r)).1
          (promotable db (keep_up q r)).0 k h (ap (λ (s : Raft). s.voted_for) same)
          (ap (λ (s : Raft). s.meta) same) (ap (λ (s : Raft). s.state) same))
  | inr ((false, mine), e) ↦
      rw (e, grant_by_gtid) (grant_in_view-Outcome q (record rsp { gtid = mine }) r k h)
]

-- A candidate that answers a vote request with OK has voted for the sender in the view of the
-- request, had no vote for another in that view, and is a follower of nobody. With any other
-- answer it is in the role it was in, and its vote and view stand or it has moved to the newer
-- view of the request without a vote.
pub candidate_vote-Outcome :
    (db : Db) (q : Request) (r : Raft) → Outcome q r (process_request_vote db q r)
unfolding process_request_vote
candidate_vote-Outcome db q r = ground (arith, grant_by_gtid-Outcome db q (answer RetCode.ok r) r)

-- What each answer to a heartbeat means for a candidate.
abbrev pub Yields : Request → Raft → Response × Raft → Type 0
Yields q r (rsp, r') = elim rsp.ret_code [
  | RetCode.ok ↦
      (contains q.from r.peers ≡ true)
      × (r.meta.view_id ≤ q.view_id)
      × (r' ≡ record r { state = follower; leader = "" })
  | RetCode.error_invalid_view_id ↦
      (q.view_id < r.meta.view_id) × (r' ≡ r) × (rsp.leader ≡ r.leader)
  | RetCode.error_invalid_request ↦ (contains q.from r.peers ≡ false) × (r' ≡ r)
  | _ ↦ ⊥
]

-- At a heartbeat with counters near its own, a candidate that answers OK knows the sender, was
-- in no later view, and differs only in that it is a follower of nobody. A stranger or a sender
-- in an older view changes nothing.
pub candidate_heartbeat-Yields :
    (q : Request) (r : Raft) → IsNear q r → Yields q r (process_heartbeat q r)
unfolding process_heartbeat set_state
candidate_heartbeat-Yields q r near = ground (
  arith,
  int_diff_near r.meta.view_id q.view_id near.view_fits near.asked_view_fits near.view_above
      near.view_below,
)
