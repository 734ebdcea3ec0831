-- ===== src/Raft/Follower/Vote/Laws.antt =====
-- What the vote handler of internal/election/raft/follower.go promises.
use neoha.Common.{
  ◌≤◌, ◌<◌, ◌≡◌, ◌⊎◌, arith, str_eq_iff, Option-cases, inl, inr, ap, refl, if◌then◌else◌,
  Bool-cases,
}
use neoha.Raft.Wire.{Request, Response, RetCode}
use neoha.Raft.State.{Raft, Db, update_view}
use neoha.Raft.Database.Frame.{led_by_other-SameButFlag, promotable-SameButFlag}
use neoha.Raft.Follower.Vote.{
  process_request_vote, grant_by_gtid, grant_in_view, call, DbCall, answer, promotable, is_mgr,
}

-- What holds of a granted vote: it is for the sender, in the view that it asked for.
abbrev pub IsGrant : Request → Raft → Raft → Type 0
IsGrant q r r' =
    (r'.voted_for ≡ q.from)
    × (r'.meta.view_id ≡ q.view_id)
    × (r.meta.view_id ≤ q.view_id)
    × ((r.meta.view_id < q.view_id) ⊎ (r.voted_for ≡ "") ⊎ (r.voted_for ≡ q.from))

-- What holds where the vote is refused: the old vote stands, or a newer view opens with none.
abbrev pub IsRefusal : Request → Raft → Raft → Type 0
IsRefusal q r r' =
    ((r'.voted_for ≡ r.voted_for) × (r'.meta.view_id ≡ r.meta.view_id))
    ⊎ ((r'.voted_for ≡ "") × (r'.meta.view_id ≡ q.view_id) × (r.meta.view_id < q.view_id))

abbrev pub Outcome : Request → Raft → Response × Raft → Type 0
Outcome q r (rsp, r') = elim rsp.ret_code [ RetCode.ok ↦ IsGrant q r r' | _ ↦ IsRefusal q r r' ]

grant_in_view-Outcome :
    (db : Db) (q : Request) (rsp : Response) (r : Raft)
    → rsp.ret_code ≡ RetCode.ok
    → r.meta.view_id ≤ q.view_id
    → Outcome q r (grant_in_view db q rsp r)
unfolding grant_in_view update_view
grant_in_view-Outcome db q rsp r k h = ground (
  arith,
  led_by_other-SameButFlag db q.uuid r,
  led_by_other-SameButFlag db q.uuid (update_view q.view_id "" r),
  str_eq_iff r.voted_for "",
  str_eq_iff r.voted_for q.from,
)

Outcome_frame :
    (q : Request) (r s : Raft) (x : Response × Raft)
    → s.voted_for ≡ r.voted_for
    → s.meta ≡ r.meta
    → Outcome q s x
    → Outcome q r x
Outcome_frame q r s x e m h = ground arith

grant_by_gtid-Outcome :
    (db : Db) (q : Request) (rsp : Response) (r : Raft)
    → rsp.ret_code ≡ RetCode.ok
    → r.meta.view_id ≤ q.view_id
    → Outcome q r (grant_by_gtid db q rsp r)
unfolding grant_by_gtid
grant_by_gtid-Outcome db q rsp r k h = elim (Option-cases (db.gtid_greater_than q.gtid)) [
  | inl e ↦ rw (e, grant_by_gtid) (inl (refl, refl))
  | inr ((greater, mine), e) ↦
      let same = promotable-SameButFlag db r in
      let voted = ap (λ (s : Raft). s.voted_for) same in
      let meta = ap (λ (s : Raft). s.meta) same in
      let rsp' = record rsp { gtid = mine } in
      ground (
        arith,
        e,
        voted,
        meta,
        grant_in_view-Outcome db q rsp' r,
        Outcome_frame q r (promotable db r).1 (grant_in_view db q rsp' (promotable db r).1) voted
            meta,
        grant_in_view-Outcome db q rsp' (promotable db r).1,
      )
]

stopped-Outcome :
    (db : Db) (q : Request) (r : Raft)
    → r.meta.view_id ≤ q.view_id
    → Outcome q r (
        grant_by_gtid db q
          (answer RetCode.ok r)
          (if is_mgr r.conf.repl_mode then r else call DbCall.stop_slave_io_thread r))
stopped-Outcome db q r h = elim (Bool-cases (is_mgr r.conf.repl_mode)) [
  | inl e ↦ rw e (grant_by_gtid-Outcome db q (answer RetCode.ok r) r refl h)
  | inr e ↦
      rw e (
        grant_by_gtid-Outcome db q (answer RetCode.ok r) (call DbCall.stop_slave_io_thread r) refl
          h)
]

-- A follower that answers a vote request with OK has voted for the sender in the view of the
-- request, which is not before its own, and had no vote for another in that view. With any other
-- answer its vote and view stand, or it has moved to the newer view of the request without a
-- vote.
pub follower_vote-Outcome :
    (db : Db) (q : Request) (r : Raft) → Outcome q r (process_request_vote db q r)
unfolding process_request_vote
follower_vote-Outcome db q r = ground (arith, stopped-Outcome db q r)
