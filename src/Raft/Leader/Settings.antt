-- ===== src/Raft/Leader/Settings.antt =====
-- The background work of internal/election/raft/leader.go: the goroutines that set the database up
-- after an election, the workers that the tickers drive, stateInit and stateExit.
use neoha.Common.{
  ℕ, ◌+◌, ◌-◌, ◌/◌, String, Bool, true, false, Option, none, some, ◌&&◌, ◌||◌, not, str_eq,
  if◌then◌else◌, ltb,
}
use neoha.Raft.Wire.{State, cmt_none, cmt_ok, cmt_error, Gtid, MgrStatus, is_mgr}
use neoha.Raft.State.{Raft, Db, DbCall, Job, call, spawn, set_state, get_members, u64}
use neoha.Raft.Database.{
  demote_read_only, change_to_master, enable_read_write, is_mgr_cluster_status_ok,
  is_delegated_mgr_phase1_ready,
}
use neoha.Raft.Leader.{stop_workers, degrade_to_follower}

retrieved : Option Gtid → String
retrieved none = ""
retrieved (some g) = g.retrieved_gtid_set

-- The exit of prepareSettingsAsync that does not go through `degradeToFollower`.
abbrev give_up : Raft → Raft
give_up r = record (set_state State.follower r) { is_degrade_to_follower = true }

-- prepareSettingsAsync, in three parts; each database call may take long.
unfoldable pub semi_sync_wait : Db → Raft → Option Job × Raft
unfolding retrieved
semi_sync_wait db r =
    let r' = call (DbCall.wait_until_after_gtid (retrieved db.get_gtid)) r in
    if db.wait_fails then (none, give_up r') else (some Job.semi_sync_change, r')

unfoldable pub semi_sync_change : Db → Raft → Option Job × Raft
semi_sync_change db r =
    let (done, r') = change_to_master db r in
    if done then (some Job.semi_sync_open, r') else (none, give_up r')

unfoldable pub semi_sync_open : Db → Raft → Option Job × Raft
semi_sync_open db r = (
  none,
  (enable_read_write db
      (call DbCall.set_master_global_sys_var (call DbCall.enable_semi_sync_master r))).1,
)

is_primary : Option MgrStatus → Bool
is_primary none = false
is_primary (some m) = str_eq m.role "PRIMARY"

-- prepareSettingsMGR, in three parts.
unfoldable pub mgr_wait : Db → Raft → Option Job × Raft
mgr_wait db r =
    let r' = call DbCall.wait_apply_relay_log r in
    if db.wait_fails
    then (none, degrade_to_follower r')
    else (some Job.mgr_change, call DbCall.set_master_global_sys_var r')

unfoldable pub mgr_change : Db → Raft → Option Job × Raft
unfolding is_primary
mgr_change db r =
    let (ok, _, r') = is_mgr_cluster_status_ok db r in
    let (done, r'') = change_to_master db r' in
    if ok && is_primary db.get_local_mgr_stat
    then (some Job.mgr_close, record r' { cmt_state = cmt_ok; mgr_cluster_ever_ok = true })
    else if done
    then (some Job.mgr_close, record r'' { cmt_state = cmt_ok; mgr_cluster_ever_ok = true })
    else (none, degrade_to_follower (record r'' { cmt_state = cmt_error }))

unfoldable pub mgr_close : Db → Raft → Option Job × Raft
mgr_close db r =
    let r' = demote_read_only r in
    (none, if db.demote_fails then r' else record r' { is_read_only = true })

-- One round of prepareSettingsMGRDelegated; `expired` says whether its five minutes are over.
unfoldable pub mgr_delegated : Bool → Db → Raft → Option Job × Raft
mgr_delegated expired db r =
    let joined = record r { cmt_state = cmt_ok; mgr_cluster_ever_ok = true; is_read_only = true } in
    if expired
    then (none, degrade_to_follower r)
    else if is_delegated_mgr_phase1_ready db r
    then (none, joined)
    else (some Job.mgr_delegated, r)

-- `purgeBinlog`, when its ticker fires.
unfoldable pub purge_binlog : Db → Raft → Raft
purge_binlog db r =
    let s = r.stats in
    let r' = call (DbCall.purge_binlogs_to r.next_purge_binlog) r in
    if r.skip_purge_binlog || r.conf.purge_binlog_disabled || str_eq r.next_purge_binlog ""
    then r
    else if db.purge_fails
    then record r' {
      stats = record s { leader_purge_binlog_fails = u64 (s.leader_purge_binlog_fails + 1) };
    }
    else record r' {
      relay_master_log_file = "";
      next_purge_binlog = "";
      stats = record s { leader_purge_binlogs = u64 (s.leader_purge_binlogs + 1) };
    }

abbrev semisync_timeout : ℕ
semisync_timeout = 1_000_000_000_000_000_000

-- `checkSemiSync`, when its ticker fires.
unfoldable pub check_semi_sync : Raft → Raft
check_semi_sync r =
    let cur = get_members r in
    if r.skip_check_semi_sync
    then r
    else if ltb cur 3
    then call (DbCall.set_semi_sync_master_timeout r.conf.semi_sync_timeout_for_two_nodes) r
    else call (DbCall.set_semi_sync_master_timeout semisync_timeout) (
        call (DbCall.set_semi_wait_slave_count ((cur - 1) / 2))
          (call DbCall.enable_semi_sync_master r))

-- `checkGTID`, when its ticker fires.
unfoldable pub check_gtid : Db → Raft → Raft
check_gtid db r = elim db.get_gtid [ none ↦ r | some g ↦ record r { gtid = g } ]

-- `purgeBinlogStart` stops a former worker first, which clears the names.
abbrev start_workers : Raft → Raft
start_workers r = record r {
  relay_master_log_file = "";
  next_purge_binlog = "";
  workers = true;
  semi_sync_worker = not (is_mgr r.conf.repl_mode) || r.semi_sync_worker;
}

-- `prepareSettingsAsync` and `prepareSettingsMGR`, up to their goroutines.
abbrev prepare_settings : Raft → Raft
prepare_settings r =
    if is_mgr r.conf.repl_mode
    then spawn (if r.conf.delegate_db_apply then Job.mgr_delegated else Job.mgr_wait)
        (record r { cmt_state = cmt_none })
    else if r.conf.delegate_db_apply
    then r
    else spawn Job.semi_sync_wait r

unfoldable pub state_init : Raft → Raft
state_init r = record (prepare_settings (start_workers (record r { is_read_only = false }))) {
  is_degrade_to_follower = false;
}

-- `stateExit`, up to the wait for the goroutines.
unfoldable pub state_exit : Raft → Raft
state_exit r = if r.is_degrade_to_follower then r else stop_workers (demote_read_only r)
