-- ===== src/Mysql/Api/Statements.antt =====
-- internal/database/mysql/api.go: the operations that send one statement, for the election layer and
-- the RPC calls, and the first start of the node in driver.go.
use neoha.Common.{Bool, ℕ, String, [], ◌∷◌, if◌then◌else◌}
use neoha.Raft.Wire.{is_mgr}
use neoha.Mysql.{Server, Statement, M, ◌>>=◌, ◌>>◌, return, logged, run, run_all, get_db}
use neoha.Mysql.Handler.{check_user_exists, create_repl_user_without_binlog}
use neoha.Mysql.Api.{get_gtid, set_read_only, start_slave}

module _ (s : Server) where
  abbrev send : Statement → M (Unit {0})
  send c = get_db s >> run s c

  unfoldable pub start_slave_io_thread : M (Unit {0})
  start_slave_io_thread = send Statement.start_slave_io

  unfoldable pub stop_slave_io_thread : M (Unit {0})
  stop_slave_io_thread = send Statement.stop_slave_io

  unfoldable pub stop_slave : M (Unit {0})
  stop_slave = send Statement.stop_slave

  unfoldable pub start_mgr : M (Unit {0})
  start_mgr = send Statement.start_mgr

  unfoldable pub stop_mgr : M (Unit {0})
  stop_mgr = send Statement.stop_mgr

  unfoldable pub reset_master : M (Unit {0})
  reset_master = send Statement.reset_master

  unfoldable pub reset_slave : M (Unit {0})
  reset_slave = send Statement.reset_slave

  unfoldable pub reset_slave_all : M (Unit {0})
  reset_slave_all = get_db s >> run_all s (Statement.stop_slave ∷ Statement.reset_slave_all ∷ [])

  unfoldable pub purge_binlogs_to : String → M (Unit {0})
  purge_binlogs_to b = send (Statement.purge_binlogs b)

  unfoldable pub set_semi_wait_slave_count : ℕ → M (Unit {0})
  set_semi_wait_slave_count n = send (Statement.semi_sync_wait_count n)

  unfoldable pub set_semi_sync_master_timeout : ℕ → M (Unit {0})
  set_semi_sync_master_timeout t = send (Statement.semi_sync_timeout t)

  -- `ensureReplUser` of driver.go.
  unfoldable pub ensure_repl_user : M (Unit {0})
  ensure_repl_user m =
      (get_db s >> check_user_exists s m.conf.repl_user "%" >>= λ exists.
      if exists
      then return tt
      else get_db s >> create_repl_user_without_binlog s m.conf.repl_user m.conf.repl_passwd)
        m

  abbrev start_as_slave : Bool → M (Unit {0})
  start_as_slave mgr = if mgr then return tt else start_slave s

  -- `SetupBootstrap` of driver.go, after `wait`, which is WaitMysqlWorks.
  unfoldable pub setup_bootstrap : M (Unit {0}) → M (Unit {0})
  unfolding ensure_repl_user
  setup_bootstrap wait m =
      (wait
          >> logged (get_gtid s)
          >> ensure_repl_user
          >> set_read_only s
          >> start_as_slave (is_mgr m.conf.repl_mode))
        m
