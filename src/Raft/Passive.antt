-- ===== src/Raft/Passive.antt =====
-- What idle.go, invalid.go and learner.go of internal/election/raft share: the roles that neither
-- stand for election nor decide one.
pub mod Heartbeat
use neoha.Common.{Bool, true, false, not, str_eq, if◌then◌else◌}
use neoha.Raft.Wire.{Request, Response, RetCode}
use neoha.Raft.State.{Raft, Db, DbCall, call, answer, check_request, update_view, int_diff, Sign}
use neoha.Raft.Members.{update_epoch}
use neoha.Raft.Database.{demote_read_only}

-- The tail that the three heartbeat handlers share: a newer view, another epoch.
unfoldable pub follow_view : Sign → Request → Raft → Raft
follow_view Sign.negative q r = update_view q.view_id q.from r
follow_view _ q r = r

unfoldable pub follow_epoch : Sign → Request → Raft → Raft
follow_epoch Sign.zero_sign q r = r
follow_epoch _ q r = update_epoch q.epoch_id q.peers q.idle_peers r

abbrev pub is_positive : Sign → Bool
is_positive Sign.positive = true
is_positive _ = false

abbrev pub view_diff : Raft → Request → Sign
view_diff r q = int_diff r.meta.view_id q.view_id

abbrev pub epoch_diff : Raft → Request → Sign
epoch_diff r q = int_diff r.meta.epoch_id q.epoch_id

-- MySQL1 to MySQL3 of Idle and Invalid; Idle leaves semi-sync alone under group replication.
unfoldable pub prepare_replica : Bool → Raft → Raft
prepare_replica disable r =
    call DbCall.start_slave
      (demote_read_only (if disable then call DbCall.disable_semi_sync_master r else r))

abbrev pub heartbeat_answer : Db → Raft → Response
heartbeat_answer db r = record (answer RetCode.ok r) {
  relay_master_log_file = db.relay_master_log_file;
}

-- The heartbeat handlers of Idle and Invalid: `on_fail` is the answer when the replication source
-- cannot be changed. A view older than ours is answered with OK and changes nothing.
unfoldable pub replica_heartbeat :
    Bool → (Response → Response) → Db → Request → Raft → Response × Raft
replica_heartbeat disable on_fail db q r =
    let rsp = heartbeat_answer db r in
    let ready = prepare_replica disable r in
    let moved = call (DbCall.change_master_to q.repl) ready in
    let finish = λ (s : Raft). follow_epoch (epoch_diff r q) q (follow_view (view_diff r q) q s) in
    if not (check_request r q)
    then (record rsp { ret_code = RetCode.error_invalid_request }, r)
    else if is_positive (view_diff r q)
    then (rsp, r)
    else if str_eq r.leader q.from
    then (rsp, finish ready)
    else if db.change_master_to_fails q.repl
    then (on_fail rsp, moved)
    else (rsp, finish (record moved { leader = q.from }))

-- `processPingRequest`, the same in every role.
unfoldable pub process_ping : Raft → Response
process_ping r = answer RetCode.ok r

-- `stateInit` of the three roles.
unfoldable pub passive_state_init : Raft → Raft
passive_state_init r = call DbCall.set_slave_global_sys_var (demote_read_only r)
