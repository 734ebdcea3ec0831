-- ===== src/Mysql/Accounts.antt =====
-- The accounts of users: mysqlbase.go, their calls in api.go, and internal/server/rpc_user.go.
pub mod Calls
pub mod Granting
pub mod Examples
use Prim.Native.Char.{Char, code}
use Prim.Native.String.{◌++◌}
use neoha.Common.{
  Bool, true, false, not, ◌&&◌, ◌||◌, ℕ, zero, suc, ◌==◌, ◌-◌, leb, String, List, [], ◌∷◌,
  if◌then◌else◌, map,
}
use neoha.Common.Result.{Result, ok, err, Error}
use neoha.Common.Text.{split, join, trim_space}
use neoha.Mysql.{
  Server, Mysql, Query, Statement, Row, field, M, ◌>>=◌, ◌>>◌, return, fail, ask, run, get_db,
  after,
}

abbrev pub normal_privileges : List String
normal_privileges =
    "ALTER" ∷ "ALTER ROUTINE" ∷ "CREATE" ∷ "CREATE ROUTINE" ∷ "CREATE TEMPORARY TABLES"
    ∷ "CREATE VIEW" ∷ "DELETE" ∷ "DROP" ∷ "EXECUTE" ∷ "EVENT" ∷ "INDEX" ∷ "INSERT" ∷ "LOCK TABLES"
    ∷ "PROCESS" ∷ "RELOAD" ∷ "SELECT" ∷ "SHOW DATABASES" ∷ "SHOW VIEW" ∷ "UPDATE" ∷ "TRIGGER"
    ∷ "REFERENCES" ∷ "REPLICATION SLAVE" ∷ "REPLICATION CLIENT" ∷ []

-- `strings.ToUpper` of a letter of ASCII, and of the two others that become one. Any other letter
-- stays here, which shows in the text of an error only.
abbrev upper_code : ℕ → ℕ
upper_code c =
    if leb b'a' c && leb c b'z'
    then c - 32
    else if c == 0x131
    then b'I'
    else if c == 0x17F
    then b'S'
    else c

-- Whether `strings.ToUpper` of the first text is the second, which is in ASCII.
unfoldable pub upper_is : String → String → Bool
upper_is String.[] String.[] = true
upper_is String.[] (String.◌∷◌ d t) = false
upper_is (String.◌∷◌ c s) String.[] = false
upper_is (String.◌∷◌ c s) (String.◌∷◌ d t) = upper_code (code c) == code d && upper_is s t

unfoldable pub char_at : ℕ → String → Char → Char
char_at n String.[] d = d
char_at zero (String.◌∷◌ c s) d = c
char_at (suc n) (String.◌∷◌ c s) d = char_at n s d

-- The letter of the code `upper_code` of a letter.
abbrev upper_char : Char → Char
upper_char c =
    if upper_code (code c) == code c
    then c
    else char_at (upper_code (code c) - b'A') "ABCDEFGHIJKLMNOPQRSTUVWXYZ" c

unfoldable pub to_upper : String → String
to_upper String.[] = ""
to_upper (String.◌∷◌ c s) = String.◌∷◌ (upper_char c) (to_upper s)

-- `strings.TrimSuffix(s, ",")`.
unfoldable pub trim_comma : String → String
trim_comma String.[] = ""
trim_comma (String.◌∷◌ c String.[]) = if code c == b',' then "" else String.◌∷◌ c String.[]
trim_comma (String.◌∷◌ c (String.◌∷◌ d s)) = String.◌∷◌ c (trim_comma (String.◌∷◌ d s))

unfoldable pub is_normal : String → List String → Bool
is_normal p [] = false
is_normal p (n ∷ ns) = upper_is p n || is_normal p ns

-- Every privilege of the list, without spaces round it, is a normal one.
unfoldable pub all_normal : List String → Bool
all_normal [] = true
all_normal (p ∷ ps) = is_normal (trim_space p) normal_privileges && all_normal ps

-- The first privilege that is no normal one, as the error has it.
unfoldable pub first_abnormal : List String → String
first_abnormal [] = ""
first_abnormal (p ∷ ps) =
    let rest = first_abnormal ps in
    if is_normal (trim_space p) normal_privileges then rest else to_upper (trim_space p)

abbrev pub privileges : String → List String
privileges privs = split b',' (trim_comma privs)

abbrev pub is_ssl_type : String → Bool
is_ssl_type ssl = upper_is ssl "YES" || upper_is ssl "NO"

abbrev account_name : String → String → String
account_name user host = "`" ++ user ++ "`@`" ++ host ++ "`"

-- The texts of the statements.
unfoldable pub create_text : String → String → String → Bool → String
create_text user host passwd x509 =
    "CREATE USER "
    ++ account_name user host
    ++ " IDENTIFIED BY '"
    ++ passwd
    ++ "'"
    ++ (if x509 then " REQUIRE X509" else "")

unfoldable pub drop_text : String → String → String
drop_text user host = "DROP USER " ++ account_name user host

unfoldable pub passwd_text : String → String → String → String
passwd_text user host passwd =
    "ALTER USER " ++ account_name user host ++ " IDENTIFIED BY '" ++ passwd ++ "'"

unfoldable pub grant_text : String → String → String → String → String
grant_text privs on user host =
    "GRANT " ++ privs ++ " ON " ++ on ++ " TO " ++ account_name user host

-- `Error()`.
abbrev pub message : Error → String
message (Error.plain t) = t
message (Error.mysql_error n t) = t

-- An error with the one that the step gave at its end.
abbrev pub wrapped : String → M (Unit {0}) → M (Unit {0})
wrapped t x m =
    let (r, m') = x m in
    elim r [ ok u ↦ (ok u, m') | err e ↦ fail (t ++ ": [" ++ message e ++ "]") m' ]

-- `model.MysqlUser`.
pub record MysqlUser : Type 0 where
  pub user : String
  pub host : String
  pub super_priv : String

abbrev user_of : Row → MysqlUser
user_of r = record {
  user = field "User" r;
  host = field "Host" r;
  super_priv = field "Super_priv" r;
}

module _ (s : Server) where
  abbrev pub send : String → M (Unit {0})
  send t = run s (Statement.account t)

  -- `CreateUser`, `DropUser`, `ChangeUserPasswd`, `GetUser` and `GrantNormalPrivileges`.
  unfoldable pub create_user : String → String → String → Bool → M (Unit {0})
  create_user user host passwd x509 = send (create_text user host passwd x509)

  unfoldable pub drop_user : String → String → M (Unit {0})
  drop_user user host = send (drop_text user host)

  unfoldable pub change_user_passwd : String → String → String → M (Unit {0})
  change_user_passwd user host passwd = send (passwd_text user host passwd)

  unfoldable pub get_user : M (List MysqlUser)
  get_user = ask s Query.users >>= λ rows. return (map user_of rows)

  unfoldable pub grant_normal_privileges : String → String → M (Unit {0})
  grant_normal_privileges user host = send (grant_text (join "," normal_privileges) "*.*" user host)

  -- `GrantReplicationPrivileges`.
  unfoldable pub grant_replication_privileges : String → M (Unit {0})
  grant_replication_privileges user = run s (Statement.grant_replication user)

  -- `CreateUserWithPrivileges`: the account stays where the grant fails.
  abbrev pub create_and_grant :
      String → String → String → String → String → String → String → M (Unit {0})
  create_and_grant user passwd db table host privs ssl =
      wrapped
        ("create user[" ++ user ++ "] with privileges[" ++ privs ++ "] require ssl_type[" ++ ssl
          ++ "] failed")
        (create_user user host passwd (upper_is ssl "YES"))
      >> send (grant_text privs (db ++ "." ++ table) user host)

  unfoldable pub create_user_with_privileges :
      String → String → String → String → String → String → String → M (Unit {0})
  create_user_with_privileges user passwd db table host privs ssl =
      if all_normal (privileges privs)
      then if is_ssl_type ssl
        then create_and_grant user passwd db table host (trim_comma privs) ssl
        else fail ("wrong ssl_type[" ++ ssl ++ "], it should be 'YES' or 'NO'")
      else fail (
          "can't create user["
          ++ user
          ++ "] with privileges["
          ++ first_abnormal (privileges privs)
          ++ "]")

  -- `GrantAllPrivileges`.
  unfoldable pub grant_all_privileges : String → String → String → String → M (Unit {0})
  grant_all_privileges user host passwd ssl =
      if is_ssl_type ssl
      then (wrapped
            ("create user[" ++ user ++ "]@[" ++ host ++ "] with all privileges require ssl_type["
              ++ ssl ++ "] failed")
            (create_user user host passwd (upper_is ssl "YES"))
          >> send (grant_text "ALL" "*.*" user host ++ " WITH GRANT OPTION"))
      else fail ("wrong ssl_type[" ++ ssl ++ "], it should be 'YES' or 'NO'")
