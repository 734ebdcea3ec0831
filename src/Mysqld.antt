-- ===== src/Mysqld.antt =====
-- internal/manager/mysqld: the process of the MySQL server and its monitor (mysqld.go, linux_args.go,
-- rpc_mysqld.go); Backup has the jobs of xtrabackup, and Manager internal/manager/manager.go. The
-- shell is a parameter: `Shell` says what each command gives, which may depend on all that was run.
pub mod Backup
pub mod Counters
pub mod Manager
pub mod Examples
use Prim.Native.String.{◌++◌}
use neoha.Common.{
  Bool, true, false, not, ◌&&◌, ℕ, ◌+◌, ◌%◌, ◌^◌, String, List, [], ◌∷◌, if◌then◌else◌,
}
use neoha.Common.Result.{Result, ok, err, Error}
use neoha.Common.Text.{ℤ, pos, negsuc, itoa, is_empty, is_positive, trim_space, atoi}

-- `MYSQLD_STATUS`.
pub data Status : Type 0 where
  none_yet backuping canceled applylogging : Status
  shutdowning is_running not_running unknown : Status

-- `BackupConfig`, as far as it is read here; ports are numbers of 16 bits.
pub record BackupConfig : Type 0 where
  pub basedir : String
  pub defaults_file : String
  pub host : String
  pub port : ℕ
  pub admin : String
  pub passwd : String
  pub xtrabackup_bin_dir : String
  pub parallel : ℤ
  pub use_memory : String

-- What a command is run for, with its arguments.
pub data Command : Type 0 where
  start stop kill check : List String → Command
  ssh : List String → Command
  launch : List String → Command  -- `Run`, which leaves the command running
  kill_job : Command

-- A command that was run, with its success.
abbrev pub Entry : Type 0
Entry = Command × Bool

pub record Shell : Type 0 where
  pub run : List Entry → Command → Result String
  pub scan : List Entry → Result (Unit {0})  -- `Scan`, which waits for the command that was launched
  pub join_path : String → String → String  -- filepath.Join

-- `MysqldStats`.
pub record MysqldStats : Type 0 where
  pub mysqld_starts : ℕ
  pub mysqld_stops : ℕ
  pub monitor_starts : ℕ
  pub monitor_stops : ℕ

-- `Mysqld`.
pub record Mysqld : Type 0 where
  pub conf : BackupConfig
  pub monitor_running : Bool
  pub status : Status
  pub stats : MysqldStats
  pub log : List Entry  -- newest first

-- `atomic.AddUint64(&n, 1)`.
abbrev pub inc : ℕ → ℕ
inc n = (n + 1) % 2 ^ 64

abbrev pub good : {A : Type 0} → Result A → Bool
good (ok a) = true
good (err e) = false

-- `Error()`.
abbrev pub message : Error → String
message (Error.plain t) = t
message (Error.mysql_error n t) = t

unfoldable pub print_int : ℤ → String
print_int (pos n) = itoa n
print_int (negsuc n) = "-" ++ itoa (n + 1)

abbrev pub script : String → List String
script s = "-c" ∷ s ∷ []

abbrev inc_starts : MysqldStats → MysqldStats
inc_starts t = record t { mysqld_starts = inc t.mysqld_starts }

abbrev inc_stops : MysqldStats → MysqldStats
inc_stops t = record t { mysqld_stops = inc t.mysqld_stops }

module _ (sh : Shell) where
  -- `LinuxArgs`.
  unfoldable pub start_args : BackupConfig → List String
  start_args c = script (
      sh.join_path c.basedir "bin/mysqld_safe"
      ++ " --defaults-file="
      ++ c.defaults_file
      ++ " > /dev/null&")

  unfoldable pub stop_args : BackupConfig → List String
  stop_args c = script (
      sh.join_path c.basedir "bin/mysqladmin"
      ++ " -h"
      ++ c.host
      ++ " -u"
      ++ c.admin
      ++ (if is_empty c.passwd then "" else " -p" ++ c.passwd)
      ++ " -P"
      ++ itoa c.port
      ++ " shutdown")

  unfoldable pub check_args : BackupConfig → List String
  check_args c =
      script ("ps aux | grep '[m]ysqld_safe --defaults-file=" ++ c.defaults_file ++ "' | wc -l")

  unfoldable pub kill_args : BackupConfig → List String
  kill_args c = script (
      "$(ps aux | grep '[-]-defaults-file=" ++ c.defaults_file
      ++ "' | grep -v grep | awk '{print $2}' | xargs kill -9)")

  abbrev run : Command → Mysqld → Result String × Mysqld
  run c m = let r = sh.run m.log c in (r, record m { log = (c, good r) ∷ m.log })

  -- An output that is no number counts as running.
  abbrev pub counted : Result String → Bool
  counted (err e) = false
  counted (ok out) = let (n, fine) = atoi (trim_space out) in if fine then is_positive n else true

  -- `isMysqldRunning`.
  unfoldable pub is_mysqld_running : Mysqld → Bool × Mysqld
  is_mysqld_running m = let (r, m') = run (Command.check (check_args m.conf)) m in (counted r, m')

  abbrev started : Result String × Mysqld → Result (Unit {0}) × Mysqld
  started (err e, m) = (err e, m)
  started (ok out, m) = (ok tt, record m { stats = inc_starts m.stats })

  -- `StartMysqld`.
  unfoldable pub start_mysqld : Mysqld → Result (Unit {0}) × Mysqld
  start_mysqld m =
      let (running, m') = is_mysqld_running m in
      if running then (ok tt, m') else started (run (Command.start (start_args m.conf)) m')

  abbrev stopped : Result String × Mysqld → Result (Unit {0}) × Mysqld
  stopped (err e, m) = (err e, m)
  stopped (ok out, m) = (ok tt, record m { status = Status.shutdowning; stats = inc_stops m.stats })

  -- `StopMysqld` and `KillMysqld`.
  unfoldable pub stop_mysqld : Mysqld → Result (Unit {0}) × Mysqld
  stop_mysqld m =
      let (running, m') = is_mysqld_running m in
      if running then stopped (run (Command.stop (stop_args m.conf)) m') else (ok tt, m')

  unfoldable pub kill_mysqld : Mysqld → Result (Unit {0}) × Mysqld
  kill_mysqld m = stopped (run (Command.kill (kill_args m.conf)) m)

  -- `monitor`: one tick. An error of the start is only logged.
  unfoldable pub monitor : Mysqld → Mysqld
  monitor m =
      let (running, m') = is_mysqld_running m in
      if running
      then record m' { status = Status.is_running }
      else (start_mysqld (record m' { status = Status.not_running })).1

  -- `MonitorStart` and `MonitorStop`.
  unfoldable pub monitor_start : Mysqld → Mysqld
  monitor_start m = if m.monitor_running then m else record m {
    monitor_running = true;
    stats = record (m.stats) { monitor_starts = inc m.stats.monitor_starts };
  }

  unfoldable pub monitor_stop : Mysqld → Mysqld
  monitor_stop m =
      if m.monitor_running
      then record m {
        monitor_running = false;
        status = Status.unknown;
        stats = record (m.stats) { monitor_stops = inc m.stats.monitor_stops };
      }
      else m

-- `getMonitorInfo` and `getMysqldInfo`.
abbrev pub monitor_info : Mysqld → String
monitor_info m = if m.monitor_running then "ON" else "OFF"

unfoldable pub status_text : Status → String
status_text Status.none_yet = "NONE"
status_text Status.backuping = "BACKUPING"
status_text Status.canceled = "CANCELED"
status_text Status.applylogging = "APPLYLOGGING"
status_text Status.shutdowning = "SHUTDOWNING"
status_text Status.is_running = "RUNNING"
status_text Status.not_running = "NOTRUNNING"
status_text Status.unknown = "UNKNOWN"

abbrev pub mysqld_info : Mysqld → String
mysqld_info m = if m.monitor_running then status_text m.status else "UNKNOWN"
