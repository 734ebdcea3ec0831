-- ===== src/Mysql.antt =====
-- internal/database/mysql: the layer between the election and the MySQL server. The server is not
-- part of the program: `Server` says what each query and each statement answers, which may depend on
-- everything that was asked and run before. What the layer did is the list `log`.
pub mod Handler
pub mod Api
pub mod Ping
pub mod Union
pub mod Compare
pub mod Accounts
pub mod Applier
pub mod Examples
use neoha.Common.{
  Bool, true, false, ℕ, String, Option, none, some, List, [], ◌∷◌, if◌then◌else◌, str_eq,
}
use neoha.Common.Result.{Result, ok, err, Error}
use neoha.Raft.Wire.{Gtid, Repl, ReplMode}

pub data Query : Type 0 where
  slave_status master_status received_set broken_members : Query
  server_uuid server_id group_members primary_member local_address : Query
  gtid_subtract gtid_sub : String → String → Query
  user_exists : String → String → Query
  users : Query

-- The statements, one constructor for each text that is sent.
pub data Statement : Type 0 where
  set_read_only set_super_read_only : Bool → Statement
  open_read_only : Statement  -- SET GLOBAL read_only=off
  close_super_read_only : Statement  -- SET GLOBAL super_read_only=on
  stop_slave start_slave stop_slave_io start_slave_io : Statement
  reset_master reset_slave reset_slave_all : Statement
  set_gtid_purged : String → Statement
  change_master : Repl → Statement
  change_recovery_channel : String → String → Statement
  start_mgr stop_mgr : Statement
  bootstrap_group : Bool → Statement
  force_members : String → Statement
  purge_binlogs : String → Statement
  semi_sync_master : Bool → Statement
  semi_sync_timeout semi_sync_wait_count : ℕ → Statement
  set_global : String → Statement
  wait_after_gtids : String → Statement
  sql_log_bin : Bool → Statement
  create_repl_user : String → String → Statement
  grant_replication : String → Statement
  account : String → Statement  -- about the accounts of users, with its text

-- A query that was asked, or a statement that was run, with its success.
pub data Entry : Type 0 where
  asked : Query → Entry
  ran : Statement → Bool → Entry

-- A row by the names of its columns.
abbrev pub Row : Type 0
Row = List (String × String)

abbrev pub field : String → Row → String
field k [] = ""
field k ((j, v) ∷ r) = if str_eq j k then v else field k r

pub record Server : Type 0 where
  pub connect : List Entry → Option Error
  pub session : List Entry → Option Error
  pub rows : List Entry → Query → Result (List Row)
  pub exec : List Entry → Statement → Option Error

-- `MysqlConfig`, as far as it is read here.
pub record MysqlConfig : Type 0 where
  pub repl_mode : ReplMode
  pub repl_host : String
  pub port : ℕ
  pub repl_user : String
  pub repl_passwd : String
  pub repl_gtid_purged : String
  pub admit_defeat_ping_cnt : ℕ
  pub failover_on_too_many_connections : Bool
  pub master_sys_vars : List String  -- split at the semicolons, empty for the empty text
  pub slave_sys_vars : List String

pub data MysqlState : Type 0 where
  alive dead : MysqlState

-- The last access that this layer set: the option is the empty text at first.
pub data Access : Type 0 where
  unset read_only read_write : Access

pub record Mysql : Type 0 where
  pub conf : MysqlConfig
  pub state : MysqlState
  pub option : Access
  pub relay_master_log_file : String
  pub mysql_downs : ℕ
  pub downs : ℕ
  pub dead_due_to_too_many_connections : Bool
  pub connected : Bool
  pub log : List Entry  -- newest first

abbrev pub M : Type 0 → Type 0
M A = Mysql → Result A × Mysql

abbrev pub after : {A B : Type 0} → Result A × Mysql → (A → M B) → Result B × Mysql
after (ok a, m) f = f a m
after (err e, m) f = (err e, m)

infixl 5 ◌>>=◌ ◌>>◌
abbrev pub ◌>>=◌ : {A B : Type 0} → M A → (A → M B) → M B
◌>>=◌ x f m = after (x m) f

abbrev pub ◌>>◌ : {A B : Type 0} → M A → M B → M B
x >> y = x >>= λ _. y

abbrev pub return : {A : Type 0} → A → M A
return a m = (ok a, m)

abbrev pub fail : {A : Type 0} → String → M A
fail e m = (err (Error.plain e), m)

-- What follows whether or not the step fails.
abbrev pub attempt : {A : Type 0} → M A → M (Result A)
attempt x m = let (r, m') = x m in (ok r, m')

-- A step whose error is only logged.
abbrev pub logged : {A : Type 0} → M A → M (Unit {0})
logged x m = (ok tt, (x m).1)

abbrev pub result : Option Error → Result (Unit {0})
result none = ok tt
result (some e) = err e

abbrev pub fine : Option Error → Bool
fine none = true
fine (some e) = false

module _ (s : Server) where
  -- `QueryWithTimeout` and `Query`.
  abbrev pub ask : Query → M (List Row)
  ask q m = (s.rows m.log q, record m { log = asked q ∷ m.log })

  -- `ExecuteWithTimeout` and `Execute`.
  abbrev pub run : Statement → M (Unit {0})
  run c m = let e = s.exec m.log c in (result e, record m { log = ran c (fine e) ∷ m.log })

  abbrev pub run_list : List Statement → M (Unit {0})
  run_list [] = return tt
  run_list (c ∷ cs) = run c >> run_list cs

  -- `ExecuteSuperQueryListWithTimeout`: one session, up to the first error.
  abbrev pub run_all : List Statement → M (Unit {0})
  run_all cs m = after (result (s.session m.log), m) (λ _. run_list cs)

  -- `getDB`.
  unfoldable pub get_db : M (Unit {0})
  get_db m = if m.connected then (ok tt, m) else elim (s.connect m.log) [
    | none ↦ (ok tt, record m { connected = true })
    | some e ↦ (err e, m)
  ]

-- `GTID_SUBTRACT` and the like answer one row: the first, if any.
abbrev pub first : List Row → Option Row
first [] = none
first (r ∷ rs) = some r
