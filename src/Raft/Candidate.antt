-- ===== src/Raft/Candidate.antt =====
-- internal/election/raft/candidate.go: requests of others, and the transitions.
pub mod Votes
pub mod Requests
use neoha.Common.{Bool, true, false, Option, none, some, ◌+◌, not, if◌then◌else◌, ltb}
use neoha.Raft.Wire.{State, Request, Response, RetCode}
use neoha.Raft.State.{
  Raft, Stats, Db, answer, check_request, set_leader, set_state, update_view, no_vote, no_leader,
  u64, inc_view_id,
}
use neoha.Raft.Database.{promotable}
use neoha.Raft.Passive.{is_positive, view_diff}
use neoha.Raft.Follower.Vote.{voted_for_other}

abbrev pub degrade_to_follower : Raft → Raft
degrade_to_follower r = set_state State.follower r

-- `upgradeToLeader`.
unfoldable pub upgrade_to_leader : Raft → Raft
upgrade_to_leader r = record (set_leader r.id (set_state State.leader r)) {
  stats = record (r.stats) { leader_promotes = u64 (r.stats.leader_promotes + 1) };
}

-- `processHeartbeatRequest`.
unfoldable pub process_heartbeat : Request → Raft → Response × Raft
process_heartbeat q r =
    let rsp = answer RetCode.ok r in
    if not (check_request r q)
    then (record rsp { ret_code = RetCode.error_invalid_request }, r)
    else if is_positive (view_diff r q)
    then (record rsp { leader = r.leader; ret_code = RetCode.error_invalid_view_id }, r)
    else (rsp, degrade_to_follower r)

-- Checks 3 to 5 of processRequestVoteRequest.
grant_in_view : Request → Response → Raft → Response × Raft
grant_in_view q rsp r =
    if ltb r.meta.view_id q.view_id
    then (
      rsp,
      degrade_to_follower
          (record (degrade_to_follower (update_view q.view_id no_leader r)) { voted_for = q.from }),
    )
    else if voted_for_other q r
    then (record rsp { ret_code = RetCode.error_vote_not_granted }, r)
    else (rsp, degrade_to_follower (record r { voted_for = q.from }))

-- A candidate with more data moves to the newer view at once, also if it then refuses its vote.
keep_up : Request → Raft → Raft
keep_up q r = if ltb r.meta.view_id q.view_id then update_view q.view_id no_leader r else r

-- Check 2, and those after it.
grant_by_gtid : Db → Request → Response → Raft → Response × Raft
unfolding grant_in_view keep_up
grant_by_gtid db q rsp r = elim (db.gtid_greater_than q.gtid) [
  | none ↦ (record rsp { ret_code = RetCode.error_mysql_down }, r)
  | some (greater, mine) ↦
      let rsp' = record rsp { gtid = mine } in
      let (able, r') = if greater then promotable db (keep_up q r) else (false, r) in
      if able
      then (record rsp' { ret_code = RetCode.error_invalid_gtid }, r')
      else grant_in_view q rsp' r'
]

-- `processRequestVoteRequest`.
unfoldable pub process_request_vote : Db → Request → Raft → Response × Raft
unfolding grant_by_gtid
process_request_vote db q r =
    let rsp = answer RetCode.ok r in
    if not (check_request r q)
    then (record rsp { ret_code = RetCode.error_invalid_request }, r)
    else if ltb q.view_id r.meta.view_id
    then (record rsp { ret_code = RetCode.error_invalid_view_id }, r)
    else grant_by_gtid db q rsp r

-- What `sendRequestVote` does to the node before it calls the peers: the next view, and no vote.
unfoldable pub open_view : Raft → Raft
open_view r = record (inc_view_id r) { voted_for = no_vote }
