-- ===== src/Raft/Follower/Vote.antt =====
-- `processRequestVoteRequest` of internal/election/raft/follower.go: the five checks in order.
pub mod Laws
use neoha.Common.{Bool, false, none, some, ◌&&◌, not, str_eq, if◌then◌else◌, ltb}
use neoha.Raft.Wire.{Request, Response, RetCode, is_mgr}
use neoha.Raft.State.{
  Raft, Db, DbCall, call, answer, check_request, update_view, no_vote, no_leader,
}
use neoha.Raft.Database.{promotable, led_by_other}

-- Checks 4 and 5.
grant_unless_led : Db → Request → Response → Raft → Response × Raft
grant_unless_led db q rsp r =
    let (other, checked) =
      if is_mgr r.conf.repl_mode then led_by_other db q.uuid r else (false, r) in
    if other
    then (record rsp { ret_code = RetCode.error_mgr_already_running_ok }, checked)
    else (rsp, record checked { voted_for = q.from })

-- Whether this view's vote went to somebody else.
abbrev pub voted_for_other : Request → Raft → Bool
voted_for_other q r = not (str_eq r.voted_for no_vote) && not (str_eq r.voted_for q.from)

-- Check 3, and those after it.
grant_in_view : Db → Request → Response → Raft → Response × Raft
unfolding grant_unless_led
grant_in_view db q rsp r =
    if ltb r.meta.view_id q.view_id
    then grant_unless_led db q rsp (update_view q.view_id no_leader r)
    else if voted_for_other q r
    then (record rsp { ret_code = RetCode.error_vote_not_granted }, r)
    else grant_unless_led db q rsp r

-- Check 2, and those after it.
grant_by_gtid : Db → Request → Response → Raft → Response × Raft
unfolding grant_in_view
grant_by_gtid db q rsp r = elim (db.gtid_greater_than q.gtid) [
  | none ↦ (record rsp { ret_code = RetCode.error_mysql_down }, r)
  | some (greater, mine) ↦
      let rsp' = record rsp { gtid = mine } in
      let (able, r') = if greater then promotable db r else (false, r) in
      if able
      then (record rsp' { ret_code = RetCode.error_invalid_gtid }, r')
      else grant_in_view db q rsp' r'
]

unfoldable pub process_request_vote : Db → Request → Raft → Response × Raft
unfolding grant_by_gtid
process_request_vote db q r =
    let rsp = answer RetCode.ok r in
    let stopped = if is_mgr r.conf.repl_mode then r else call DbCall.stop_slave_io_thread r in
    if not (check_request r q)
    then (record rsp { ret_code = RetCode.error_invalid_request }, r)
    else if ltb q.view_id r.meta.view_id
    then (record rsp { ret_code = RetCode.error_invalid_view_id }, r)
    else grant_by_gtid db q rsp stopped
