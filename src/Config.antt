-- ===== src/Config.antt =====
-- internal/config: the rules that merge and check a configuration, config_validate.go with the types
-- and defaults of config.go that they read. A section that may be nil is an Option; the three
-- pointers down to the DCS section of the bootstrap are one. Reading and writing files is left out.
pub mod Rules
pub mod Examples
use Prim.Native.Char.{code}
use neoha.Common.{
  Bool, true, false, not, ◌&&◌, ◌||◌, ℕ, ◌==◌, leb, String, Option, none, some, [], ◌∷◌,
  if◌then◌else◌, str_eq, ◌+◌,
}
use neoha.Common.Result.{Result, ok, err, Error}
use neoha.Common.Text.{ℤ, pos, is_empty, is_zero, trim_space}
use neoha.Etcd.{EtcdConfig}

pub record RaftSection : Type 0 where
  pub leader_start_command : String
  pub leader_stop_command : String

pub record ElectionConfig : Type 0 where
  pub algo : String
  pub raft : Option RaftSection
  pub etcd : Option EtcdConfig

pub record CoordinationConfig : Type 0 where
  pub provider : String
  pub raft : Option RaftSection
  pub etcd : Option EtcdConfig

pub record DcsConfig : Type 0 where
  pub maximum_lag : ℤ
  pub use_slots : Bool
  pub use_pg_rewind : Bool

pub record PostgresqlConfig : Type 0 where
  pub maximum_lag : ℤ
  pub use_slots : Bool
  pub use_pg_rewind : Bool

pub record DatabaseConfig : Type 0 where
  pub db_type : String
  pub postgresql : Option PostgresqlConfig
  pub mysql_mode : Option String  -- the section of MySQL, by its replication mode

pub record PrimaryHooksConfig : Type 0 where
  pub on_primary_start : String
  pub on_primary_stop : String

-- `Config`, as far as the rules read it.
pub record Config : Type 0 where
  pub endpoint : String
  pub election : Option ElectionConfig
  pub coordination : Option CoordinationConfig
  pub dcs : Option DcsConfig
  pub database : Option DatabaseConfig
  pub ha : Option (Option PrimaryHooksConfig)

abbrev pub default_raft : RaftSection
default_raft = record { leader_start_command = "nop"; leader_stop_command = "nop" }

abbrev pub default_etcd : EtcdConfig
default_etcd = record { host = ""; hosts = []; ttl = pos 30 }

abbrev pub default_election : ElectionConfig
default_election = record { algo = "raft"; raft = some default_raft; etcd = some default_etcd }

abbrev pub default_coordination : CoordinationConfig
default_coordination = record {
  provider = "raft";
  raft = some default_raft;
  etcd = some default_etcd;
}

abbrev pub default_postgresql : PostgresqlConfig
default_postgresql = record { maximum_lag = pos 0; use_slots = false; use_pg_rewind = false }

-- The default of the MySQL section is a parameter of no rule but its mode, semi-sync.
abbrev pub default_database : DatabaseConfig
default_database = record {
  db_type = "mysql";
  postgresql = some default_postgresql;
  mysql_mode = some "semi-sync";
}

abbrev pub default_hooks : PrimaryHooksConfig
default_hooks = record { on_primary_start = "nop"; on_primary_stop = "nop" }

abbrev pub or_default : {A : Type 0} → A → Option A → A
or_default d none = d
or_default d (some a) = a

abbrev pub or_other : {A : Type 0} → Option A → Option A → Option A
or_other none o = o
or_other (some a) o = some a

-- An empty text takes the other.
abbrev pub or_text : String → String → String
or_text t u = if is_empty t && not (is_empty u) then u else t

abbrev pub or_mysql : String → String
or_mysql t = if is_empty (trim_space t) then "mysql" else t

-- `Normalize`, of a configuration that is not nil.
unfoldable pub normalize : Config → Config
normalize c =
    let e = or_default default_election c.election in
    let k = or_default default_coordination c.coordination in
    let d = or_default default_database c.database in
    let provider = or_text k.provider e.algo in
    let raft = or_other k.raft e.raft in
    let etcd = or_other k.etcd e.etcd in
    record c {
      election = some (record {
        algo = or_text e.algo provider;
        raft = or_other e.raft raft;
        etcd = or_other e.etcd etcd;
      });
      coordination = some (record { provider = provider; raft = raft; etcd = etcd });
      database = some (record d { db_type = or_mysql d.db_type });
      ha = some (some (or_default default_hooks (or_default (some default_hooks) c.ha)));
    }

abbrev of_election : Option ElectionConfig → CoordinationConfig
of_election none = default_coordination
of_election (some e) = record { provider = e.algo; raft = e.raft; etcd = e.etcd }

-- `EffectiveCoordination`.
unfoldable pub effective_coordination : Config → CoordinationConfig
effective_coordination c = elim c.coordination [
  | some k ↦ if is_empty k.provider then of_election c.election else elim c.election [
    | some e ↦ record k { raft = or_other k.raft e.raft; etcd = or_other k.etcd e.etcd }
    | none ↦ k
  ]
  | none ↦ of_election c.election
]

abbrev lower_code : ℕ → ℕ
lower_code c = if leb b'A' c && leb c b'Z' then c + 32 else c

-- Whether `strings.ToLower` of the first text is the second. Where the second has no i and no k, as
-- all that are accepted, the letters of ASCII decide.
unfoldable pub lower_is : String → String → Bool
lower_is String.[] String.[] = true
lower_is String.[] (String.◌∷◌ d t) = false
lower_is (String.◌∷◌ c s) String.[] = false
lower_is (String.◌∷◌ c s) (String.◌∷◌ d t) = lower_code (code c) == code d && lower_is s t

-- An etcd section that names a host.
abbrev pub has_host : Option EtcdConfig → Bool
has_host none = false
has_host (some ec) = not (is_empty ec.host) || elim ec.hosts [ [] ↦ false | h ∷ hs ↦ true ]

abbrev pub is_there : {A : Type 0} → Option A → Bool
is_there none = false
is_there (some a) = true

abbrev refuse : String → Option Error
refuse e = some (Error.plain e)

-- The checks of the provider, of `Validate`.
unfoldable pub check_coordination : Config → CoordinationConfig → Option Error
check_coordination c k =
    let p = trim_space k.provider in
    if is_empty p
    then refuse "coordination provider is required"
    else if lower_is p "raft"
    then (if is_empty (trim_space c.endpoint)
        then refuse "endpoint is required when coordination.provider is raft"
        else if is_there k.raft
        then none
        else refuse "coordination.raft section is required when provider is raft")
    else if lower_is p "etcd"
    then (if has_host k.etcd
        then none
        else refuse "coordination.etcd host or hosts is required when provider is etcd")
    else if lower_is p "consul" || lower_is p "kubernetes" || lower_is p "zookeeper"
    then refuse "coordination provider is not implemented yet"
    else refuse "unsupported coordination provider"

abbrev known_mode : String → Bool
known_mode m = str_eq m "semi-sync" || str_eq m "group-replication" || is_empty m

-- What the section of PostgreSQL takes from the DCS section of the bootstrap.
unfoldable pub merge_dcs : Option DcsConfig → PostgresqlConfig → PostgresqlConfig
merge_dcs none p = p
merge_dcs (some b) p = record {
  maximum_lag = if is_zero p.maximum_lag then b.maximum_lag else p.maximum_lag;
  use_slots = p.use_slots || b.use_slots;
  use_pg_rewind = p.use_pg_rewind || b.use_pg_rewind;
}

abbrev pub check_mysql : Option String → Option Error
check_mysql none = refuse "database.mysql section is required when database.type is mysql"
check_mysql (some m) = if known_mode m then none else refuse "unsupported mysql replication-mode"

abbrev pub answer : Option Error → Result (Unit {0})
answer none = ok tt
answer (some e) = err e

-- The checks of the database, of `Validate`.
unfoldable pub check_database : DatabaseConfig → Config → Result (Unit {0}) × Config
unfolding lower_is
check_database d c =
    let t = trim_space d.db_type in
    if lower_is t "mysql" || is_empty t
    then (answer (check_mysql d.mysql_mode), c)
    else if lower_is t "postgresql" || lower_is t "postgres"
    then elim d.postgresql [
      | none ↦ (err (Error.plain "database.postgresql section is required"), c)
      | some p ↦
          (ok tt, record c { database = some (record d { postgresql = some (merge_dcs c.dcs p) }) })
    ]
    else (err (Error.plain "unsupported database.type"), c)

abbrev pub checked : Option Error → Config → Result (Unit {0}) × Config
checked (some e) c = (err e, c)
checked none c = check_database (or_default default_database c.database) c

-- `Validate`: the result, and the configuration with what it filled in.
unfoldable pub validate : Config → Result (Unit {0}) × Config
unfolding normalize effective_coordination check_coordination check_database
validate c = let c' = normalize c in checked (check_coordination c' (effective_coordination c')) c'

abbrev start_command : Option RaftSection → String → String
start_command none t = t
start_command (some r) t = if is_empty (trim_space t) then r.leader_start_command else t

abbrev stop_command : Option RaftSection → String → String
stop_command none t = t
stop_command (some r) t = if is_empty (trim_space t) then r.leader_stop_command else t

abbrev or_nop : String → String
or_nop t = if is_empty (trim_space t) then "nop" else t

abbrev hooks_of : Config → PrimaryHooksConfig
hooks_of c = or_default default_hooks (or_default (some default_hooks) c.ha)

abbrev raft_of : Config → Option RaftSection
raft_of c = elim c.election [ none ↦ none | some e ↦ e.raft ]

-- `EffectivePrimaryHooks`.
unfoldable pub effective_primary_hooks : Config → PrimaryHooksConfig
unfolding normalize
effective_primary_hooks c =
    let c' = normalize c in
    let h = hooks_of c' in
    record {
      on_primary_start = or_nop (start_command (raft_of c') h.on_primary_start);
      on_primary_stop = or_nop (stop_command (raft_of c') h.on_primary_stop);
    }
