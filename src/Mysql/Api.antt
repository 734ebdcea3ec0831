-- ===== src/Mysql/Api.antt =====
-- internal/database/mysql/api.go, with the queries of mysql.go: each operation first gets the
-- connection, and then calls the handler of mysqlbase.go.
pub mod Statements
use neoha.Common.{
  Bool, true, false, not, ◌&&◌, ◌||◌, ℕ, String, if◌then◌else◌, List, [], ◌∷◌, str_eq,
}
use neoha.Common.Result.{Result, ok, err, is_ok}
use neoha.Common.Text.{is_empty, split, contains}
use neoha.Raft.Wire.{Gtid, Repl, MgrStatus, is_mgr}
use neoha.Mysql.{
  Server, Mysql, MysqlState, Statement, Row, Access, M, ◌>>=◌, ◌>>◌, return, run, get_db,
}
use neoha.Mysql.Handler

abbrev pub is_alive : MysqlState → Bool
is_alive MysqlState.alive = true
is_alive MysqlState.dead = false

module _ (s : Server) where
  abbrev set_option : Access → M (Unit {0})
  set_option a m = (ok tt, record m { option = a })

  -- `SetReadOnly` and `SetReadWrite`: the option is set after both statements ran.
  unfoldable pub set_read_only : M (Unit {0})
  set_read_only = get_db s >> Handler.set_read_only s true >> set_option Access.read_only

  unfoldable pub set_read_write : M (Unit {0})
  set_read_write = get_db s >> Handler.set_read_only s false >> set_option Access.read_write

  -- `GetGTID`: a node that is no replica answers as a primary.
  unfoldable pub get_gtid : M Gtid
  get_gtid m =
      if is_mgr m.conf.repl_mode
      then (get_db s >> Handler.get_mgr_gtid s) m
      else (get_db s >> Handler.get_slave_gtid s >>= λ g.
            if is_empty g.slave_io_running_str && is_empty g.slave_sql_running_str
            then get_db s >> Handler.get_master_gtid s
            else return g)
          m

  abbrev caught_up : Bool → Result Gtid → Bool
  caught_up mgr (err e) = false
  caught_up mgr (ok g) =
      if mgr
      then str_eq g.txns_behind_master "0" || is_empty g.txns_behind_master
      else g.slave_sql_running

  -- `Promotable`.
  unfoldable pub promotable : Mysql → Bool × Mysql
  promotable m =
      let (g, m') = get_gtid m in
      if is_alive m.state then (caught_up (is_mgr m.conf.repl_mode) g, m') else (false, m)

  holding : String → List String → String
  holding uuid [] = ""
  holding uuid (g ∷ gs) = let rest = holding uuid gs in if contains uuid g then g else rest

  -- `GetLocalGTID`: the part of the set that this server wrote.
  unfoldable pub get_local_gtid : String → M String
  unfolding holding
  get_local_gtid gtid =
      if is_empty gtid
      then return ""
      else get_db s >> Handler.get_uuid s >>= λ uuid. return (holding uuid (split b',' gtid))

  abbrev text_of : Result String → String
  text_of (ok t) = t
  text_of (err e) = ""

  -- `CheckGTID`.
  unfoldable pub check_gtid : Gtid → Gtid → Mysql → Bool × Mysql
  check_gtid follower candidate m =
      let (f, m1) = get_local_gtid follower.executed_gtid_set m in
      let (c, m2) = get_local_gtid candidate.executed_gtid_set m1 in
      let (d, m3) = (get_db s >> Handler.get_gtid_subtract s (text_of f) (text_of c)) m2 in
      if is_empty (text_of f) || is_empty (text_of c)
      then (false, m2)
      else (not (is_empty (text_of d)), m3)

  -- `StartSlave`, `EnableSemiSyncMaster`, `DisableSemiSyncMaster`, `WaitUntilAfterGTID`.
  unfoldable pub start_slave : M (Unit {0})
  start_slave = get_db s >> run s Statement.start_slave

  unfoldable pub enable_semi_sync_master : M (Unit {0})
  enable_semi_sync_master = get_db s >> run s (Statement.semi_sync_master true)

  unfoldable pub disable_semi_sync_master : M (Unit {0})
  disable_semi_sync_master = get_db s >> run s (Statement.semi_sync_master false)

  unfoldable pub wait_until_after_gtid : String → M (Unit {0})
  wait_until_after_gtid g = get_db s >> run s (Statement.wait_after_gtids g)

  -- `ChangeMasterTo`, `MGRChangeMasterTo`, `ChangeToMaster`, `WaitApplyRelayLog`.
  unfoldable pub change_master_to : Repl → M (Unit {0})
  change_master_to p = get_db s >> Handler.change_master_to s p

  unfoldable pub mgr_change_master_to : Repl → M (Unit {0})
  mgr_change_master_to p = get_db s >> Handler.mgr_change_master_to s p

  unfoldable pub change_to_master : Repl → M (Unit {0})
  change_to_master p m = (get_db s >> Handler.change_to_master s (is_mgr m.conf.repl_mode) p) m

  unfoldable pub wait_apply_relay_log : ℕ → M (Unit {0})
  wait_apply_relay_log retry = get_db s >> Handler.wait_apply_relay_log s retry

  -- The loop of `SetMasterGlobalSysVar`: every variable, and the last error.
  unfoldable pub set_vars : Result (Unit {0}) → List String → M (Unit {0})
  set_vars r [] m = (r, m)
  set_vars r (v ∷ vs) m =
      let (r', m') = (get_db s >> run s (Statement.set_global v)) m in
      set_vars (if is_ok r' then r else r') vs m'

  unfoldable pub set_master_global_sys_var : M (Unit {0})
  unfolding set_vars
  set_master_global_sys_var m = set_vars (ok tt) m.conf.master_sys_vars m

  unfoldable pub set_slave_global_sys_var : M (Unit {0})
  unfolding set_vars
  set_slave_global_sys_var m = set_vars (ok tt) m.conf.slave_sys_vars m

  -- `IsMGRRunningOK`, `GetLocalMGRStat`, `GetMGRStats`, `GetMGRMasterUUID`.
  unfoldable pub is_mgr_running_ok : M Bool
  is_mgr_running_ok = get_db s >> Handler.is_mgr_running_ok s

  unfoldable pub get_local_mgr_stat : M MgrStatus
  get_local_mgr_stat = get_db s >> Handler.get_local_mgr_stat s

  unfoldable pub get_mgr_stats : M (List Row)
  get_mgr_stats = get_db s >> Handler.get_mgr_stats s

  unfoldable pub get_mgr_master_uuid : M String
  get_mgr_master_uuid = get_db s >> Handler.get_mgr_master_uuid s
