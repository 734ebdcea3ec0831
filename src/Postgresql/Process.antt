-- ===== src/Postgresql/Process.antt =====
-- internal/database/postgresql/rewind.go: the programs pg_ctl and pg_rewind, and standby.signal.
use neoha.Common.{
  not, ◌&&◌, ◌||◌, suc, String, Option, none, some, List, [], ◌∷◌, if◌then◌else◌, str_eq,
}
use neoha.Common.Result.{Result, ok, err, Error, plain, mysql_error}
use neoha.Common.Text.{ℤ, pos, negsuc, itoa, is_empty, contains, trim_space}
use neoha.Driver.{PrimaryRef}
use neoha.Postgresql.{
  Host, PostgresqlConfig, M, ◌>>=◌, return, fail, attempt, run_program, stat, create_file,
}
use neoha.Postgresql.Conninfo.{build_rewind_conninfo, connect_host_port}
use Prim.Native.String.{◌++◌}

unfoldable pub print_int : ℤ → String
print_int (pos n) = itoa n
print_int (negsuc n) = "-" ++ itoa (suc n)

-- The text of an error, which is plain where a program failed.
abbrev pub message : Error → String
message (plain t) = t
message (mysql_error n t) = t

module _ (h : Host) where
  -- `pgBin`.
  unfoldable pub pg_bin : PostgresqlConfig → String → String
  pg_bin c name =
      if is_empty c.bin_dir
      then elim (h.look_path name) [ none ↦ name | some path ↦ path ]
      else h.join_path c.bin_dir name

  -- `pgDataDir`.
  unfoldable pub pg_data_dir : PostgresqlConfig → M String
  pg_data_dir c =
      if is_empty c.data_dir
      then fail "postgresql: data_dir required for pg_ctl/pg_rewind"
      else return c.data_dir

  -- A server that does not run counts as stopped.
  abbrev stopped : Option Error × String → M (Unit {0})
  stopped (none, out) = return tt
  stopped (some e, out) =
      if contains "not running" out || contains "Is server running" out
      then return tt
      else fail ("pg_ctl stop: " ++ message e ++ ": " ++ trim_space out)

  abbrev pub stop_args : String → List String
  stop_args dir = "-D" ∷ dir ∷ "stop" ∷ "-m" ∷ "fast" ∷ "-w" ∷ []

  -- `pgCtlStop`.
  unfoldable pub pg_ctl_stop : PostgresqlConfig → M (Unit {0})
  pg_ctl_stop c =
      pg_data_dir c >>= λ dir. run_program h (pg_bin c "pg_ctl") (stop_args dir) >>= stopped

  abbrev pub config_file : PostgresqlConfig → String
  config_file c =
      if not (is_empty c.config_dir) && not (str_eq c.config_dir c.data_dir)
      then h.join_path c.config_dir "postgresql.conf"
      else h.join_path c.data_dir "postgresql.conf"

  abbrev pub base_opts : PostgresqlConfig → String
  base_opts c = "-c listen_addresses=127.0.0.1 -c port=" ++ print_int (connect_host_port h c).1

  abbrev pub start_opts : PostgresqlConfig → Result (Unit {0}) → String
  start_opts c (err e) = base_opts c
  start_opts c (ok u) =
      base_opts c
      ++ " -c config_file="
      ++ config_file c
      ++ " -c hba_file="
      ++ h.join_path c.data_dir "pg_hba.conf"

  abbrev started : String → Option Error × String → M (Unit {0})
  started log_path (none, out) p = (ok tt, p)
  started log_path (some e, out) p =
      fail
        ("pg_ctl start: "
          ++ message e
          ++ ": "
          ++ trim_space out
          ++ " (log: "
          ++ trim_space (h.read_file p.log log_path)
          ++ ")")
        p

  abbrev pub start_args : String → String → String → List String
  start_args dir log_path opts =
      "-D" ∷ dir ∷ "-l" ∷ log_path ∷ "-o" ∷ opts ∷ "start" ∷ "-w" ∷ "-t" ∷ "30" ∷ []

  -- `pgCtlStart`: the options name the configuration file where there is one.
  unfoldable pub pg_ctl_start : PostgresqlConfig → M (Unit {0})
  pg_ctl_start c = pg_data_dir c >>= λ dir. attempt (stat h (config_file c)) >>= λ there.
      let log_path = h.join_path dir "pg_ctl-rewind.log" in
      run_program h (pg_bin c "pg_ctl") (start_args dir log_path (start_opts c there))
      >>= started log_path

  abbrev rewound : Option Error × String → M (Unit {0})
  rewound (none, out) = return tt
  rewound (some e, out) = fail ("pg_rewind: " ++ message e ++ ": " ++ trim_space out)

  abbrev pub rewind_args : PostgresqlConfig → PrimaryRef → String → List String
  rewind_args c ref dir =
      ("--target-pgdata=" ++ dir)
      ∷ ("--source-server=" ++ build_rewind_conninfo c ref)
      ∷ "--no-sync"
      ∷ []

  -- `RunPgRewind`.
  unfoldable pub run_pg_rewind : PostgresqlConfig → PrimaryRef → M (Unit {0})
  run_pg_rewind c ref = pg_data_dir c >>= λ dir.
      run_program h (pg_bin c "pg_rewind") (rewind_args c ref dir) >>= rewound

  abbrev unless_there : String → Result (Unit {0}) → M (Unit {0})
  unless_there path (ok u) = return tt
  unless_there path (err e) = create_file h path

  -- `ensureStandbySignal`.
  unfoldable pub ensure_standby_signal : String → M (Unit {0})
  ensure_standby_signal dir =
      let path = h.join_path dir "standby.signal" in attempt (stat h path) >>= unless_there path
