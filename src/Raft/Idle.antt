-- ===== src/Raft/Idle.antt =====
-- internal/election/raft/idle.go.
use neoha.Common.{not, if◌then◌else◌}
use neoha.Raft.Wire.{CmtState, Request, Response, RetCode, is_mgr, cmt_string}
use neoha.Raft.State.{Raft, Db, answer, check_request}
use neoha.Raft.Passive.{replica_heartbeat, prepare_replica}

abbrev pub refuse_change : Response → Response
refuse_change rsp = record rsp {
  ret_code = RetCode.error_change_master;
  cmt_state = cmt_string CmtState.cmt_error;
}

unfoldable pub process_heartbeat : Db → Request → Raft → Response × Raft
unfolding replica_heartbeat prepare_replica
process_heartbeat db q r = replica_heartbeat (not (is_mgr r.conf.repl_mode)) refuse_change db q r

unfoldable pub process_request_vote : Request → Raft → Response × Raft
process_request_vote q r =
    (answer (if check_request r q then RetCode.ok else RetCode.error_invalid_request) r, r)
