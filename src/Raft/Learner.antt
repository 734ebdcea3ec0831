-- ===== src/Raft/Learner.antt =====
-- internal/election/raft/learner.go.
use neoha.Common.{not, if◌then◌else◌}
use neoha.Raft.Wire.{Request, Response, RetCode, is_mgr}
use neoha.Raft.State.{Raft, Db, DbCall, call, answer, check_request}
use neoha.Raft.Database.{demote_read_only}
use neoha.Raft.Passive.{
  follow_view, follow_epoch, is_positive, view_diff, epoch_diff, heartbeat_answer,
}

unfoldable pub process_heartbeat : Db → Request → Raft → Response × Raft
process_heartbeat db q r =
    let rsp = heartbeat_answer db r in
    let quiet = if is_mgr r.conf.repl_mode then r else call DbCall.disable_semi_sync_master r in
    if not (check_request r q)
    then (record rsp { ret_code = RetCode.error_invalid_request }, r)
    else if is_positive (view_diff r q)
    then (rsp, r)
    else (
      rsp,
      follow_epoch (epoch_diff r q) q (follow_view (view_diff r q) q (demote_read_only quiet)),
    )

unfoldable pub process_request_vote : Request → Raft → Response × Raft
process_request_vote q r = (
  answer
      (if check_request r q then RetCode.error_vote_not_granted else RetCode.error_invalid_request)
      r,
  r,
)
