-- ===== src/Mysqld/Manager.antt =====
-- internal/manager/manager.go: the manager of the server process, by the type of the database, and
-- the answers about its state in internal/manager/mysqld.
use neoha.Common.{Bool, String, if◌then◌else◌}
use neoha.Mysqld.{
  Shell, Mysqld, MysqldStats, Status, start_mysqld, monitor_start, monitor_stop, monitor_info,
  mysqld_info, status_text,
}
use neoha.Mysqld.Backup.{Backup, BackupStats}
use Prim.Native.String.{◌++◌}

-- `DBType`; NewNanager and the operations panic for any other.
pub data DbType : Type 0 where
  mysql postgresql : DbType

-- `Manager`: the process is there for MySQL.
pub record Manager : Type 0 where
  pub db_type : DbType
  pub monitor_disabled : Bool
  pub mysqld : Mysqld

module _ (sh : Shell) where
  -- `setupMysqld`: the error is only logged.
  unfoldable pub setup_mysqld : Manager → Manager
  setup_mysqld m =
      if m.monitor_disabled then m else record m { mysqld = (start_mysqld sh m.mysqld).1 }

  unfoldable pub setup_at : DbType → Manager → Manager
  setup_at DbType.mysql = setup_mysqld
  setup_at DbType.postgresql = λ m. m

  -- `SetupManager`.
  unfoldable pub setup_manager : Manager → Manager
  setup_manager m = setup_at m.db_type m

  unfoldable pub start_at : DbType → Manager → Manager
  start_at DbType.mysql =
      λ m. if m.monitor_disabled then m else record m { mysqld = monitor_start sh m.mysqld }
  start_at DbType.postgresql = λ m. m

  -- `Start` and `Stop`.
  unfoldable pub start_manager : Manager → Manager
  start_manager m = start_at m.db_type m

  unfoldable pub stop_at : DbType → Manager → Manager
  stop_at DbType.mysql = λ m. record m { mysqld = monitor_stop sh m.mysqld }
  stop_at DbType.postgresql = λ m. m

  unfoldable pub stop_manager : Manager → Manager
  stop_manager m = stop_at m.db_type m

-- `MysqldStatusRPCResponse`.
pub record StatusResponse : Type 0 where
  pub ret : String
  pub monitor_info : String
  pub mysqld_info : String
  pub backup_info : String
  pub mysqld_stats : MysqldStats
  pub backup_stats : BackupStats
  pub backup_status : Status

unfoldable pub backup_info : Status → String → String
backup_info Status.backuping since = "State:[BACKUPING], Time:[" ++ since ++ "]"
backup_info s since = status_text s

-- `getStats` of a backup leaves the last error and the last command out.
abbrev stats_of : BackupStats → BackupStats
stats_of t = record t { last_error = ""; last_cmd = "" }

-- `Status` of rpc_mysqld.go, at a time that is so long behind the start of the last backup.
unfoldable pub get_status : Mysqld → Backup → String → StatusResponse
get_status m b since = record {
  ret = "OK";
  monitor_info = monitor_info m;
  mysqld_info = mysqld_info m;
  backup_info = backup_info b.status since;
  mysqld_stats = m.stats;
  backup_stats = stats_of b.stats;
  backup_status = b.status;
}
