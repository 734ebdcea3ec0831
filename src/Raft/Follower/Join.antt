-- ===== src/Raft/Follower/Join.antt =====
-- The goroutines and the state entry of internal/election/raft/follower.go: the group join of
-- processHeartbeatRequest, setMySQLAsync and stateInit.
use neoha.Common.{String, Bool, true, false, Option, none, some, not, ◌&&◌, if◌then◌else◌}
use neoha.Raft.Wire.{
  cmt_none, cmt_ok, cmt_changing, cmt_error, Repl, MgrStatus, is_mgr, is_live_member,
}
use neoha.Raft.State.{Raft, Db, DbCall, Job, call, spawn}
use neoha.Raft.Database.{demote_read_only}

-- The goroutine marks the change, and some time later has its result.
unfoldable pub start_mgr_join : String → Repl → Raft → Option Job × Raft
start_mgr_join from repl r =
    (some (Job.mgr_joining from repl), record r { cmt_state = cmt_changing })

unfoldable pub finish_mgr_join : Db → String → Repl → Raft → Option Job × Raft
finish_mgr_join db from repl r =
    let moved = call (DbCall.mgr_change_master_to repl) r in
    if db.mgr_change_master_to_fails repl
    then (none, record moved { cmt_state = cmt_error })
    else (none, record moved { mgr_cluster_ever_ok = true; leader = from; cmt_state = cmt_ok })

-- `setMySQLAsync`.
unfoldable pub follower_settings : Raft → Raft
follower_settings r = call DbCall.set_slave_global_sys_var (demote_read_only r)

is_joined : Option MgrStatus → Bool
is_joined none = false
is_joined (some m) = is_live_member m.member_state

-- `stateInit`, after which `Loop` resets its timer.
unfoldable pub state_init : Db → Raft → Raft
unfolding is_joined
state_init db r =
    let joined = is_joined db.get_local_mgr_stat in
    if r.conf.delegate_db_apply
    then if is_mgr r.conf.repl_mode && not joined then call DbCall.stop_mgr r else r
    else if is_mgr r.conf.repl_mode
    then demote_read_only (
        if joined
        then record r { cmt_state = cmt_ok }
        else record (call DbCall.stop_mgr r) { cmt_state = cmt_none })
    else spawn Job.follower_settings r
