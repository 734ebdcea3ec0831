-- ===== src/Mysql/Accounts/Granting.antt =====
-- What the calls of internal/server/rpc_user.go send to the server.
use neoha.Common.{Bool, true, false, String, List, [], ◌∷◌, ◌≡◌, ◌⊎◌}
use neoha.Common.Result.{Result}
use neoha.Mysql.{Server, Mysql, Entry, Statement, M}
use neoha.Mysql.Accounts
use neoha.Mysql.Accounts.{create_text, grant_text, all_normal, is_ssl_type, upper_is, trim_comma}
use neoha.Mysql.Accounts.Calls
use neoha.Mysql.Accounts.Calls.{UserRequest}
use neoha.Raft.Members.{is_leader}
use neoha.Raft.Wire.{State}
use Prim.Native.String.{◌++◌}

-- The texts that were sent about accounts, with their success, newest first.
unfoldable pub sent : List Entry → List (String × Bool)
sent [] = []
sent (Entry.asked q ∷ es) = sent es
sent (Entry.ran (Statement.account t) b ∷ es) = (t, b) ∷ sent es
sent (Entry.ran c b ∷ es) = sent es

abbrev pub Sent : Type 0
Sent = List (String × Bool)

abbrev pub created : UserRequest → String
created q = create_text q.user q.host q.passwd (upper_is q.ssl "YES")

abbrev pub granted : UserRequest → String
granted q = grant_text (trim_comma q.privileges) (q.db ++ "." ++ q.table) q.user q.host

-- The account is made, and then the privileges are granted, up to the first error.
abbrev pub Granting : UserRequest → Sent → Sent → Bool → Type 0
Granting q old new good =
    ((new ≡ (created q, false) ∷ old) × (good ≡ false))
    ⊎ ((new ≡ (granted q, false) ∷ (created q, true) ∷ old) × (good ≡ false))
    ⊎ ((new ≡ (granted q, true) ∷ (created q, true) ∷ old) × (good ≡ true))

module _ (s : Server) (q : UserRequest) where
  abbrev grant_step : M (Unit {0})
  grant_step =
      Accounts.create_and_grant s q.user q.passwd q.db q.table q.host (trim_comma q.privileges)
        q.ssl

  -- Nothing was sent, in a failure, or both checks passed.
  abbrev Made : Sent → Sent → Bool → Type 0
  Made old new good =
      ((new ≡ old) × (good ≡ false))
      ⊎ ((all_normal (Accounts.privileges q.privileges) ≡ true)
          × (is_ssl_type q.ssl ≡ true)
          × Granting q old new good)

  abbrev handler : M (Unit {0})
  handler =
      Accounts.create_user_with_privileges s q.user q.passwd q.db q.table q.host q.privileges q.ssl

  -- What a call does of an account with privileges: its code is OK where both statements ran.
  abbrev pub Outcome : State → Sent → String × Mysql → Type 0
  Outcome st old x =
      (sent x.1.log ≡ old)
      ⊎ ((is_leader st ≡ true)
          × (all_normal (Accounts.privileges q.privileges) ≡ true)
          × (is_ssl_type q.ssl ≡ true)
          × ((sent x.1.log ≡ (created q, false) ∷ old)
              ⊎ (sent x.1.log ≡ (granted q, false) ∷ (created q, true) ∷ old)
              ⊎ ((sent x.1.log ≡ (granted q, true) ∷ (created q, true) ∷ old) × (x.0 ≡ "OK"))))
