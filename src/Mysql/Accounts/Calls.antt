-- ===== src/Mysql/Accounts/Calls.antt =====
-- internal/server/rpc_user.go: the calls about accounts, with the checks of api.go under them. A call
-- reads the role of the node once, at its start.
use Prim.Native.String.{◌++◌}
use neoha.Common.{String, List, [], if◌then◌else◌}
use neoha.Common.Result.{Result, ok, err}
use neoha.Mysql.{Server, Mysql, M, ◌>>=◌, ◌>>◌, return, fail, get_db}
use neoha.Mysql.Handler.{check_user_exists}
use neoha.Mysql.Accounts
use neoha.Mysql.Accounts.{MysqlUser, message}
use neoha.Raft.Members.{is_leader}
use neoha.Raft.Wire.{State}

-- `MysqlUserRPCRequest`.
pub record UserRequest : Type 0 where
  pub user : String
  pub passwd : String
  pub db : String
  pub table : String
  pub host : String
  pub privileges : String
  pub ssl : String

-- `RetCode`: OK, or the text of the error.
abbrev pub ret_code : {A : Type 0} → Result A → String
ret_code (ok a) = "OK"
ret_code (err e) = message e

abbrev pub answer : {A : Type 0} → Result A × Mysql → String × Mysql
answer (r, m) = (ret_code r, m)

-- The list is empty where the call fails.
abbrev pub answer_users : Result (List MysqlUser) × Mysql → (String × List MysqlUser) × Mysql
answer_users (ok us, m) = (("OK", us), m)
answer_users (err e, m) = ((message e, []), m)

module _ (s : Server) where
  -- `CheckUserExists` of api.go, and the text for an account that is there.
  abbrev pub unless_exists : String → UserRequest → M (Unit {0})
  unless_exists t q =
      get_db s >> check_user_exists s q.user q.host >>= λ there. if there then fail t else return tt

  abbrev pub exists_text : String → String → UserRequest → String
  exists_text kind ending q =
      kind ++ "[" ++ q.user ++ "]@[" ++ q.host ++ "].exists.when.create" ++ ending

  -- `CreateNormalUser`.
  abbrev pub normal_user : UserRequest → M (Unit {0})
  normal_user q =
      unless_exists (exists_text "normaluser" "" q) q
      >> (get_db s >> Accounts.create_user s q.user q.host q.passwd (Accounts.upper_is q.ssl "YES"))
      >> (get_db s >> Accounts.grant_normal_privileges s q.user q.host)

  unfoldable pub create_normal_user : State → UserRequest → Mysql → String × Mysql
  create_normal_user st q m =
      if is_leader st then answer (normal_user q m) else ("nonleader.can.not.createuser", m)

  -- `CreateSuperUser`.
  abbrev pub super_user : UserRequest → M (Unit {0})
  super_user q =
      unless_exists (exists_text "superuser" "" q) q
      >> (get_db s >> Accounts.grant_all_privileges s q.user q.host q.passwd q.ssl)

  unfoldable pub create_super_user : State → UserRequest → Mysql → String × Mysql
  create_super_user st q m =
      if is_leader st then answer (super_user q m) else ("nonleader.can.not.createuser", m)

  -- `CreateUserWithPrivileges`.
  abbrev pub user_with_privileges : UserRequest → M (Unit {0})
  user_with_privileges q =
      unless_exists (exists_text "user" ".with.priv" q) q
      >> (get_db s
          >> Accounts.create_user_with_privileges s q.user q.passwd q.db q.table q.host q.privileges
              q.ssl)

  unfoldable pub create_user_with_privileges : State → UserRequest → Mysql → String × Mysql
  create_user_with_privileges st q m =
      if is_leader st
      then answer (user_with_privileges q m)
      else ("nonleader.can.not.createuser", m)

  -- `ChangePasword`, `DropUser` and `GetUser`.
  unfoldable pub change_password : State → UserRequest → Mysql → String × Mysql
  change_password st q m =
      if is_leader st
      then answer ((get_db s >> Accounts.change_user_passwd s q.user q.host q.passwd) m)
      else ("nonleader.can.not.changepassword", m)

  unfoldable pub drop_user : State → UserRequest → Mysql → String × Mysql
  drop_user st q m =
      if is_leader st
      then answer ((get_db s >> Accounts.drop_user s q.user q.host) m)
      else ("nonleader.can.not.dropuser", m)

  unfoldable pub get_user : State → Mysql → (String × List MysqlUser) × Mysql
  get_user st m =
      if is_leader st
      then answer_users ((get_db s >> Accounts.get_user s) m)
      else (("nonleader.can.not.get.mysql.user", []), m)
