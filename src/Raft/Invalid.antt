-- ===== src/Raft/Invalid.antt =====
-- internal/election/raft/invalid.go.
use neoha.Common.{true}
use neoha.Raft.Wire.{Request, Response, RetCode}
use neoha.Raft.State.{Raft, Db, answer}
use neoha.Raft.Passive.{replica_heartbeat, prepare_replica}

abbrev pub refuse_change : Response → Response
refuse_change rsp = record rsp { ret_code = RetCode.error_change_master }

unfoldable pub process_heartbeat : Db → Request → Raft → Response × Raft
unfolding replica_heartbeat prepare_replica
process_heartbeat db q r = replica_heartbeat true refuse_change db q r

unfoldable pub process_request_vote : Request → Raft → Response × Raft
process_request_vote q r = (answer RetCode.error_invalid_request r, r)
