-- ===== src/Postgresql.antt =====
-- internal/database/postgresql: the layer between the HA loop and a PostgreSQL server. The server,
-- the primary that a replica follows, the programs of PostgreSQL and the files are not part of the
-- program: `Host` says what each of them answers, which may depend on everything that happened
-- before. What the layer did is the list `log`.
pub mod Conninfo
pub mod Api
pub mod Process
pub mod Replica
pub mod Rewind
pub mod Applier
pub mod Frame
pub mod Contract
pub mod Engine
pub mod Literals
pub mod Programs
pub mod Restart
pub mod Standby
pub mod Examples
use neoha.Common.{Bool, true, false, ℕ, String, Option, none, some, List, [], ◌∷◌, if◌then◌else◌}
use neoha.Common.Result.{Result, ok, err, Error}
use neoha.Common.Text.{ℤ}

-- `UserConfig`, and `PGAuthConfig` with the users that are read here.
pub record PgUser : Type 0 where
  pub username : String
  pub password : String

pub record PgAuth : Type 0 where
  pub super_user : Option PgUser
  pub repl : Option PgUser
  pub rewind : Option PgUser

-- `PostgresqlConfig`, as far as it is read here.
pub record PostgresqlConfig : Type 0 where
  pub connect_address : String
  pub data_dir : String
  pub bin_dir : String
  pub config_dir : String
  pub auth : Option PgAuth
  pub use_slots : Bool
  pub primary_slot_name : String
  pub maximum_lag_on_failover : ℤ
  pub use_pg_rewind : Bool

-- A session on the local server, or on another one with its conninfo.
pub data Link : Type 0 where
  local : Link
  remote : String → Link

-- What happened, with its answer where another part depends on it.
pub data Event : Type 0 where
  opened pinged : Link → Bool → Event
  recovery : Result Bool → Event  -- pg_is_in_recovery() of the local server
  queried : Link → String → Event
  ran : Link → String → List String → Bool → Event  -- a statement with its arguments
  program : String → List String → Bool → Event
  looked_up : String → Event
  created : String → Bool → Event

pub record Host : Type 0 where
  pub ctx_err : List Event → Option Error  -- ctx.Err(), which is set for good once it is
  pub open_link : List Event → String → Option Error
  pub ping : List Event → Link → Option Error
  pub in_recovery : List Event → Result Bool
  pub slot_exists : List Event → String → String → Result Bool
  pub timeline : List Event → Link → Result ℕ
  pub lag : List Event → Result (Option ℤ)
  pub exec : List Event → Link → String → List String → Option Error
  pub run_program : List Event → String → List String → Option Error × String
  pub look_path : String → Option String
  pub stat : List Event → String → Option Error
  pub create_file : List Event → String → Option Error
  pub read_file : List Event → String → String  -- empty where it cannot be read
  pub join_path : String → String → String  -- filepath.Join
  pub scan_int : String → Option ℤ  -- fmt.Sscanf with "%d"

pub record Postgresql : Type 0 where
  pub conf : PostgresqlConfig
  pub connected : Bool
  pub alive : Bool
  pub writable : Bool
  pub log : List Event  -- newest first

abbrev pub M : Type 0 → Type 0
M A = Postgresql → Result A × Postgresql

abbrev pub after : {A B : Type 0} → Result A × Postgresql → (A → M B) → Result B × Postgresql
after (ok a, p) f = f a p
after (err e, p) f = (err e, p)

infixl 5 ◌>>=◌ ◌>>◌
abbrev pub ◌>>=◌ : {A B : Type 0} → M A → (A → M B) → M B
◌>>=◌ x f p = after (x p) f

abbrev pub ◌>>◌ : {A B : Type 0} → M A → M B → M B
x >> y = x >>= λ _. y

abbrev pub return : {A : Type 0} → A → M A
return a p = (ok a, p)

abbrev pub fail : {A : Type 0} → String → M A
fail e p = (err (Error.plain e), p)

-- What follows whether or not the step fails.
abbrev pub attempt : {A : Type 0} → M A → M (Result A)
attempt x p = let (r, p') = x p in (ok r, p')

abbrev pub result : Option Error → Result (Unit {0})
result none = ok tt
result (some e) = err e

abbrev pub fine : Option Error → Bool
fine none = true
fine (some e) = false

abbrev pub note : Event → Postgresql → Postgresql
note e p = record p { log = e ∷ p.log }

module _ (h : Host) where
  -- `if err := ctx.Err(); err != nil { return err }`.
  abbrev pub check_ctx : M (Unit {0})
  check_ctx p = (result (h.ctx_err p.log), p)

  -- `sql.Open` for the local server and for another one.
  abbrev pub open_local : String → M (Unit {0})
  open_local info p =
      let e = h.open_link p.log info in (result e, note (Event.opened Link.local (fine e)) p)

  abbrev pub open_at : String → M (Unit {0})
  open_at info p =
      let e = h.open_link p.log info in
      (result e, note (Event.opened (Link.remote info) (fine e)) p)

  abbrev pub ping_at : Link → M (Unit {0})
  ping_at l p = let e = h.ping p.log l in (result e, note (Event.pinged l (fine e)) p)

  abbrev pub run : Link → String → List String → M (Unit {0})
  run l q args p = let e = h.exec p.log l q args in (result e, note (Event.ran l q args (fine e)) p)

  abbrev pub get_timeline : Link → M ℕ
  get_timeline l p = (
    h.timeline p.log l,
    note (Event.queried l "SELECT timeline_id FROM pg_control_checkpoint()") p,
  )

  -- The combined output, with the error of the program.
  abbrev pub run_program : String → List String → M (Option Error × String)
  run_program name args p =
      let (e, out) = h.run_program p.log name args in
      (ok (e, out), note (Event.program name args (fine e)) p)

  -- `os.Stat`.
  abbrev pub stat : String → M (Unit {0})
  stat path p = (result (h.stat p.log path), note (Event.looked_up path) p)

  abbrev pub create_file : String → M (Unit {0})
  create_file path p =
      let e = h.create_file p.log path in (result e, note (Event.created path (fine e)) p)

-- `Close` of postgresql.go.
unfoldable pub close : M (Unit {0})
close p = (ok tt, record p { connected = false })
