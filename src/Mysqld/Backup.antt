-- ===== src/Mysqld/Backup.antt =====
-- internal/manager/mysqld/backup.go: the jobs of xtrabackup. A call of Backup has three parts, before
-- and behind its waits: the checks, the launch, and the end of the job; a call of ApplyLog has two.
-- Calls run beside each other, so that any part of another one may come between.
pub mod Jobs
use Prim.Native.String.{◌++◌}
use neoha.Common.{
  Bool, true, false, not, ◌&&◌, ◌||◌, ℕ, zero, suc, ◌+◌, ◌%◌, ◌^◌, String, Option, none, some, List,
  [], ◌∷◌, ◌++◌ as append, if◌then◌else◌,
}
use neoha.Common.Result.{Result, ok, err, Error}
use neoha.Common.Text.{ℤ, itoa, is_empty, join}
use neoha.Mysqld.{
  Shell, Command, Entry, Status, BackupConfig, inc, good, script, print_int, message,
}

-- `BackupRPCRequest`.
pub record BackupRequest : Type 0 where
  pub backup_dir : String
  pub ssh_host : String
  pub ssh_user : String
  pub ssh_passwd : String
  pub ssh_port : ℤ
  pub iops_limits : ℤ
  pub xtrabackup_bin_dir : String

-- `BackupStats`.
pub record BackupStats : Type 0 where
  pub backups : ℕ
  pub backup_errs : ℕ
  pub app_logs : ℕ
  pub app_log_errs : ℕ
  pub cancels : ℕ
  pub last_error : String
  pub last_cmd : String

-- `Backup`.
pub record Backup : Type 0 where
  pub conf : BackupConfig
  pub status : Status
  pub stats : BackupStats
  pub log : List Entry  -- newest first

abbrev pub is_backuping : Status → Bool
is_backuping Status.backuping = true
is_backuping _ = false

abbrev pub is_applylogging : Status → Bool
is_applylogging Status.applylogging = true
is_applylogging _ = false

abbrev ssh_target : BackupRequest → String
ssh_target q = q.ssh_user ++ "@" ++ q.ssh_host ++ " -p " ++ print_int q.ssh_port

unfoldable pub ssh_check : BackupRequest → List String
ssh_check q = script ("ssh -o 'StrictHostKeyChecking no' " ++ ssh_target q ++ " 'echo 1'")

unfoldable pub sshpass_check : BackupRequest → List String
sshpass_check q = script (
    "sshpass -p "
    ++ q.ssh_passwd
    ++ " ssh -o 'StrictHostKeyChecking no' "
    ++ ssh_target q
    ++ " 'echo 1'")

-- `backupCommands`.
unfoldable pub backup_text : BackupConfig → BackupRequest → String
backup_text c q =
    c.xtrabackup_bin_dir
    ++ "/xtrabackup --defaults-file="
    ++ c.defaults_file
    ++ " --host="
    ++ c.host
    ++ " --port="
    ++ itoa c.port
    ++ " --user="
    ++ c.admin
    ++ (if is_empty c.passwd then "" else " --password=" ++ c.passwd)
    ++ " --backup --throttle="
    ++ print_int q.iops_limits
    ++ " --parallel="
    ++ print_int c.parallel
    ++ " --stream=xbstream --target-dir=./"

unfoldable pub receive_text : Bool → BackupRequest → String
receive_text key q =
    (if key then "" else "sshpass -p " ++ q.ssh_passwd ++ " ")
    ++ "ssh -o 'StrictHostKeyChecking=no' "
    ++ ssh_target q
    ++ " \""
    ++ q.xtrabackup_bin_dir
    ++ "/xbstream -x -C "
    ++ q.backup_dir
    ++ "\""

unfoldable pub backup_commands : Bool → BackupConfig → BackupRequest → List String
backup_commands key c q = script (backup_text c q ++ " | " ++ receive_text key q)

-- `applylogCommands`.
unfoldable pub applylog_commands : BackupConfig → BackupRequest → List String
applylog_commands c q = script (
    c.xtrabackup_bin_dir ++ "/xtrabackup --defaults-file=" ++ c.defaults_file ++ " --use-memory="
    ++ c.use_memory ++ " --prepare --target-dir=" ++ q.backup_dir)

-- What a call waits for: whether the tunnel goes by a key; and the end of a job.
pub data Waiting : Type 0 where
  tunnel : Bool → BackupRequest → Waiting
  job : Waiting
  apply_job : Waiting

abbrev pub Step : Type 0
Step = (Result (Unit {0}) × Option Waiting) × Backup

abbrev ends : Result (Unit {0}) → Backup → Step
ends r b = ((r, none), b)

abbrev waits : Waiting → Backup → Step
waits w b = ((ok tt, some w), b)

abbrev set_error : String → Backup → Backup
set_error e b = record b { stats = record (b.stats) { last_error = e } }

abbrev with_status : Status → Backup → Backup
with_status s b = record b { status = s }

-- The end of a job, with its counters.
abbrev backup_failed : Error → Backup → Step
backup_failed e b = ends (err e) (record b {
  status = Status.none_yet;
  stats = record (b.stats) { backup_errs = inc b.stats.backup_errs; last_error = message e };
})

abbrev backup_done : Backup → Step
backup_done b = ends (ok tt) (record b {
  status = Status.none_yet;
  stats = record (b.stats) { backups = inc b.stats.backups };
})

abbrev applylog_failed : Error → Backup → Step
applylog_failed e b = ends (err e) (record b {
  status = Status.none_yet;
  stats = record (b.stats) { app_log_errs = inc b.stats.app_log_errs; last_error = message e };
})

abbrev applylog_done : Backup → Step
applylog_done b = ends (ok tt) (record b {
  status = Status.none_yet;
  stats = record (b.stats) { app_logs = inc b.stats.app_logs };
})

module _ (sh : Shell) where
  abbrev run : Command → Backup → Bool × Backup
  run c b = let g = good (sh.run b.log c) in (g, record b { log = (c, g) ∷ b.log })

  -- `checkSSHTunnelWithPass` and `checkSSHTunnelWithKey`.
  unfoldable pub check_ssh_tunnel_with_pass : BackupRequest → Backup → Bool × Backup
  check_ssh_tunnel_with_pass q b =
      let (there, b') = run (Command.ssh (script "sshpass -V")) b in
      if there then run (Command.ssh (sshpass_check q)) b' else (false, b')

  unfoldable pub check_ssh_tunnel_with_key : BackupRequest → Backup → Bool × Backup
  check_ssh_tunnel_with_key q = run (Command.ssh (ssh_check q))

  abbrev no_tunnel : BackupRequest → String
  no_tunnel q =
      "backup.ssh.tunnel.to["
      ++ q.ssh_user
      ++ "@"
      ++ q.ssh_host
      ++ " port:"
      ++ print_int q.ssh_port
      ++ " passwd:"
      ++ q.ssh_passwd
      ++ "].can.not.connect"

  -- `Backup`, up to the tunnel.
  unfoldable pub backup : BackupRequest → Backup → Step
  backup q b =
      let (by_pass, b1) = check_ssh_tunnel_with_pass q b in
      let (by_key, b2) = check_ssh_tunnel_with_key q b1 in
      if is_backuping b.status
      then ends (err (Error.plain "do.backup.error[backup.job.is.already.running]")) b
      else if by_pass
      then waits (tunnel false q) b1
      else if by_key
      then waits (tunnel true q) b2
      else ends (err (Error.plain (no_tunnel q))) (set_error "backup.ssh.tunnel[key].error" b2)

  -- `Run` of a job, which it goes on with unless the command could not be started.
  abbrev launch : List String → (Error → Backup → Step) → Waiting → Backup → Step
  launch args failed w b = elim (sh.run b.log (Command.launch args)) [
    | ok out ↦ waits w (record b { log = (Command.launch args, true) ∷ b.log })
    | err e ↦ failed e (record b { log = (Command.launch args, false) ∷ b.log })
  ]

  -- `Backup`, from the tunnel to the launch.
  unfoldable pub backup_launch : Bool → BackupRequest → Backup → Step
  backup_launch key q b =
      let args = backup_commands key b.conf q in
      launch args backup_failed job (record b {
        status = Status.backuping;
        stats = record (b.stats) { last_cmd = join " " args };
      })

  -- `Scan`: the job has ended.
  unfoldable pub backup_end : Backup → Step
  backup_end b = elim (sh.scan b.log) [ ok u ↦ backup_done b | err e ↦ backup_failed e b ]

  -- `ApplyLog`, up to the launch, and its end.
  unfoldable pub apply_log : BackupRequest → Backup → Step
  apply_log q b =
      if is_backuping b.status || is_applylogging b.status
      then ends (err (Error.plain "applylog.error[backup/applylog.already.running]")) b
      else launch (applylog_commands b.conf q) applylog_failed apply_job
          (with_status Status.applylogging b)

  unfoldable pub apply_log_end : Backup → Step
  apply_log_end b = elim (sh.scan b.log) [ ok u ↦ applylog_done b | err e ↦ applylog_failed e b ]

  -- `Cancel`.
  unfoldable pub cancel : Backup → Step
  cancel b =
      let (g, b') = run Command.kill_job b in
      let b'' = record b' {
        status = Status.canceled;
        stats = record (b'.stats) { cancels = inc b'.stats.cancels };
      } in
      elim (sh.run b.log Command.kill_job) [ ok out ↦ ends (ok tt) b'' | err e ↦ ends (err e) b'' ]

  -- What follows a wait.
  unfoldable pub go_on : Waiting → Backup → Step
  go_on (tunnel key q) = backup_launch key q
  go_on job = backup_end
  go_on apply_job = apply_log_end
