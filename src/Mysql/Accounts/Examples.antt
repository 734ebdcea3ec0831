-- ===== src/Mysql/Accounts/Examples.antt =====
-- An account that a leader makes.
use neoha.Common.{[], ◌∷◌, true, ◌≡◌, refl}
use neoha.Mysql.{Mysql}
use neoha.Mysql.Examples.{server, node}
use neoha.Mysql.Accounts.Calls
use neoha.Mysql.Accounts.Calls.{UserRequest}
use neoha.Mysql.Accounts.Granting.{sent, created, granted}
use neoha.Raft.Wire.{State, ReplMode}

abbrev request : UserRequest
request = record {
  user = "app";
  passwd = "pw";
  db = "shop";
  table = "*";
  host = "%";
  privileges = "select, Insert,";
  ssl = "no";
}

-- The account is made, and its privileges are granted.
granted_test :
    sent
      (Calls.create_user_with_privileges server State.leader request
        (node ReplMode.semi_sync)).1.log
    ≡ (granted request, true) ∷ (created request, true) ∷ []
unfolding sent Calls.create_user_with_privileges neoha.Mysql.get_db
    neoha.Mysql.Handler.check_user_exists neoha.Mysql.Accounts.create_user_with_privileges
    neoha.Mysql.Accounts.all_normal neoha.Mysql.Accounts.is_normal neoha.Mysql.Accounts.upper_is
    neoha.Mysql.Accounts.trim_comma neoha.Common.Text.split neoha.Common.Text.trim_space
    neoha.Mysql.Accounts.create_user
granted_test = refl

-- A privilege that is no normal one is named by the error.
refused_test :
    (Calls.create_user_with_privileges server State.leader
      (record request { privileges = "select, super" })
      (node ReplMode.semi_sync)).0
    ≡ "can't create user[app] with privileges[SUPER]"
unfolding Calls.create_user_with_privileges neoha.Mysql.get_db neoha.Mysql.Handler.check_user_exists
    neoha.Mysql.Accounts.create_user_with_privileges neoha.Mysql.Accounts.all_normal
    neoha.Mysql.Accounts.is_normal neoha.Mysql.Accounts.upper_is neoha.Mysql.Accounts.trim_comma
    neoha.Common.Text.split neoha.Common.Text.trim_space neoha.Mysql.Accounts.first_abnormal
    neoha.Mysql.Accounts.to_upper neoha.Mysql.Accounts.char_at
refused_test = refl
