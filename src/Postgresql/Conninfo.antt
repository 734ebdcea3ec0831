-- ===== src/Postgresql/Conninfo.antt =====
-- internal/database/postgresql: the conninfo texts of api.go, replica.go and rewind.go, and the
-- addresses that they are made of.
use neoha.Common.{String, Option, none, some, if◌then◌else◌}
use neoha.Common.Text.{is_empty, itoa, is_positive, ℤ, pos, negsuc, trim_space}
use neoha.Driver.{PrimaryRef}
use neoha.Reconcile.Target.{split_host_port}
use neoha.Postgresql.{Host, PostgresqlConfig, PgUser}
use Prim.Native.String.{◌++◌}

-- `splitHostPort`.
unfoldable pub host_and_port : String → String → String × String
host_and_port addr default_port =
    if is_empty addr then ("127.0.0.1", default_port) else elim (split_host_port addr) [
      | none ↦ (addr, default_port)
      | some (host, port) ↦ if is_empty port then (host, default_port) else (host, port)
    ]

abbrev or_default : String → String → String
or_default d s = if is_empty s then d else s

abbrev pub named : String → Option PgUser → String
named d none = d
named d (some u) = or_default d u.username

abbrev pub password_of : Option PgUser → String
password_of none = ""
password_of (some u) = u.password

abbrev pub super_user : PostgresqlConfig → Option PgUser
super_user c = elim c.auth [ none ↦ none | some a ↦ a.super_user ]

abbrev pub repl : PostgresqlConfig → Option PgUser
repl c = elim c.auth [ none ↦ none | some a ↦ a.repl ]

abbrev pub rewind : PostgresqlConfig → Option PgUser
rewind c = elim c.auth [ none ↦ none | some a ↦ a.rewind ]

-- The two formats that the code uses.
unfoldable pub conninfo : String → String → String → String → String
conninfo host port user pass =
    if is_empty pass
    then "host=" ++ host ++ " port=" ++ port ++ " user=" ++ user
      ++ " dbname=postgres sslmode=disable"
    else "host=" ++ host ++ " port=" ++ port ++ " user=" ++ user ++ " password=" ++ pass
      ++ " dbname=postgres sslmode=disable"

-- `dsn`.
unfoldable pub dsn : PostgresqlConfig → String
dsn c =
    let (host, port) = host_and_port c.connect_address "5432" in
    conninfo host port (named "postgres" (super_user c)) (password_of (super_user c))

-- `replUser`.
unfoldable pub repl_user : PostgresqlConfig → String × String
repl_user c = (named "replicator" (repl c), password_of (repl c))

-- `rewindAuth`: the super user stands in where the user of pg_rewind has no name.
unfoldable pub rewind_auth : PostgresqlConfig → String × String
rewind_auth c =
    let user = named "" (rewind c) in
    if is_empty user
    then elim (super_user c) [
      | none ↦ ("postgres", password_of (rewind c))
      | some u ↦ (or_default "postgres" u.username, u.password)
    ]
    else (user, password_of (rewind c))

digits_of : ℤ → String
digits_of (pos n) = itoa n
digits_of (negsuc n) = ""

-- The address of the primary: that of its name where it has no host.
unfoldable pub endpoint : PrimaryRef → String × String
unfolding digits_of
endpoint ref =
    if is_empty ref.host
    then if is_empty ref.member_id
      then (ref.host, if is_positive ref.port then digits_of ref.port else "5432")
      else host_and_port ref.member_id "5432"
    else (ref.host, if is_positive ref.port then digits_of ref.port else "5432")

-- `BuildPrimaryConninfo`.
unfoldable pub build_primary_conninfo : PostgresqlConfig → PrimaryRef → String
build_primary_conninfo c ref =
    let (host, port) = endpoint ref in
    let (user, pass) = repl_user c in conninfo host port user pass

-- `BuildRewindConninfo`.
unfoldable pub build_rewind_conninfo : PostgresqlConfig → PrimaryRef → String
build_rewind_conninfo c ref =
    let (host, port) = endpoint ref in
    let (user, pass) = rewind_auth c in conninfo host port user pass

module _ (h : Host) where
  -- `parsePort` and `ConnectHostPort`.
  unfoldable pub parse_port : String → Option ℤ
  parse_port s = h.scan_int (trim_space s)

  unfoldable pub connect_host_port : PostgresqlConfig → String × ℤ
  connect_host_port c =
      let (host, port) = host_and_port c.connect_address "5432" in
      (host, elim (parse_port port) [ none ↦ pos 5432 | some n ↦ n ])
