-- ===== src/Mysqld/Examples.antt =====
-- A server that does not run, and two backups beside each other.
use neoha.Common.{false, List, [], ◌∷◌, ◌≡◌, refl}
use neoha.Common.Result.{ok, err, Error}
use neoha.Common.Text.{pos}
use neoha.Mysqld.{Shell, Mysqld, BackupConfig, Status, Command}
use neoha.Mysqld.Backup.{Backup, BackupRequest, job}
use neoha.Mysqld.Backup.Jobs
use neoha.Mysqld.Backup.Jobs.{Jobs, steps, steps-IsAccounted}
use neoha.Mysqld.Counters
use neoha.Mysqld.Counters.{handle_all, handle_all-IsAccounted, starts, stops, guarded}
use Prim.Native.String.{◌++◌}

-- No process is seen, and every command succeeds.
abbrev shell : Shell
shell = record {
  run = λ l c. ok "0";
  scan = λ l. err (Error.plain "found[0]!=expects[1]");
  join_path = λ dir name. dir ++ "/" ++ name;
}

abbrev conf : BackupConfig
conf = record {
  basedir = "/u01/mysql";
  defaults_file = "/etc/my.cnf";
  host = "127.0.0.1";
  port = 3306;
  admin = "root";
  passwd = "";
  xtrabackup_bin_dir = "/usr/bin";
  parallel = pos 2;
  use_memory = "2GB";
}

abbrev mysqld : Mysqld
mysqld = record {
  conf = conf;
  monitor_running = false;
  status = Status.not_running;
  stats = record { mysqld_starts = 0; mysqld_stops = 0; monitor_starts = 0; monitor_stops = 0 };
  log = [];
}

abbrev calls : List Counters.Call
calls = Counters.start_monitor ∷ Counters.tick ∷ Counters.kill ∷ Counters.stop_monitor ∷ []

handle_all-IsAccounted_example : Counters.IsAccounted (handle_all shell calls mysqld)
unfolding starts stops guarded
handle_all-IsAccounted_example =
    handle_all-IsAccounted shell calls mysqld
      (record { started = refl; stopped = refl; monitored = refl; checked = refl })

abbrev request : BackupRequest
request = record {
  backup_dir = "/backup";
  ssh_host = "10.0.0.2";
  ssh_user = "mysql";
  ssh_passwd = "pw";
  ssh_port = pos 22;
  iops_limits = pos 100;
  xtrabackup_bin_dir = "/usr/bin";
}

abbrev idle : Jobs
idle = record {
  shared = record {
    conf = conf;
    status = Status.none_yet;
    stats = record {
      backups = 0;
      backup_errs = 0;
      app_logs = 0;
      app_log_errs = 0;
      cancels = 0;
      last_error = "";
      last_cmd = "";
    };
    log = [];
  };
  waiting = [];
}

abbrev two_backups : List Jobs.Call
two_backups = Jobs.do_backup request ∷ Jobs.do_backup request ∷ Jobs.resume 1 ∷ Jobs.resume 1 ∷ []

steps-IsAccounted_example : Jobs.IsAccounted (steps shell two_backups idle)
unfolding Jobs.launches Jobs.running
steps-IsAccounted_example = steps-IsAccounted shell two_backups idle refl

-- Both calls saw that no backup was running, and both jobs run.
two_jobs_test : (steps shell two_backups idle).waiting ≡ job ∷ job ∷ []
unfolding steps Jobs.step neoha.Mysqld.Backup.backup neoha.Mysqld.Backup.go_on
    neoha.Mysqld.Backup.backup_launch neoha.Mysqld.Backup.check_ssh_tunnel_with_pass
    neoha.Mysqld.Backup.check_ssh_tunnel_with_key
two_jobs_test = refl
