-- ===== src/Etcd/Members.antt =====
-- internal/coordination/etcd: the records of the members, of coordinator.go and member.go. The JSON
-- of a record is a parameter, `encode` and `decode`.
use neoha.Common.{
  true, false, not, ◌&&◌, ◌||◌, String, Option, none, some, List, [], ◌∷◌, if◌then◌else◌, str_eq,
  ◌+◌,
}
use neoha.Common.Result.{Result, ok, err, Error}
use neoha.Common.Text.{ℤ, pos, negsuc, is_empty, is_positive, atoi, itoa, join}
use neoha.Reconcile.Target.{split_host_port}
use neoha.Driver.{Op}
use neoha.Etcd.{Store, Coordinator, member_key, member_prefix, leader_key, etcd_endpoints}

pub record MemberRecord : Type 0 where
  pub id : String
  pub name : String
  pub database : String
  pub db_host : String
  pub db_port : ℤ

-- `coordination.Member`, with the two entries of its map.
pub record Listed : Type 0 where
  pub id : String
  pub name : String
  pub database : String
  pub db_host : String
  pub db_port : String

port_text : ℤ → String
port_text (pos n) = itoa n
port_text (negsuc n) = join "" ("-" ∷ itoa (n + 1) ∷ [])

abbrev with_default : String → Option (String × String) → String × String → String × String
with_default d none other = other
with_default d (some (host, port)) other = (host, if is_empty port then d else port)

-- `splitHostPort` of member.go.
unfoldable pub host_and_default : String → String → String × String
host_and_default addr d =
    if is_empty addr then ("127.0.0.1", d) else with_default d (split_host_port addr) (addr, d)

abbrev postgres_endpoint : Option String → String × ℤ
postgres_endpoint none = ("", pos 0)
postgres_endpoint (some addr) =
    let (host, port) = host_and_default addr "5432" in (host, (atoi port).0)

abbrev mysql_endpoint : Option (String × String × ℤ) → String × ℤ
mysql_endpoint none = ("", pos 0)
mysql_endpoint (some (repl_host, host, port)) =
    (if is_empty repl_host then host else repl_host, port)

-- `memberDatabaseEndpoint`, with a section of the database.
unfoldable pub member_database_endpoint : Coordinator → String × ℤ
unfolding host_and_default
member_database_endpoint c =
    if str_eq c.db_type "postgresql" || str_eq c.db_type "postgres"
    then postgres_endpoint c.conf.postgresql_address
    else mysql_endpoint c.conf.mysql_endpoint

-- `leaderDatabaseEndpoint`: the first member of the leader's name whose endpoint is known.
unfoldable pub leader_database_endpoint : List Listed → String → String × ℤ
leader_database_endpoint [] leader = ("", pos 0)
leader_database_endpoint (m ∷ ms) leader =
    let rest = leader_database_endpoint ms leader in
    let port = (atoi m.db_port).0 in
    if not (str_eq m.id leader) && not (str_eq m.name leader)
    then rest
    else if not (is_empty m.db_host) && is_positive port
    then (m.db_host, port)
    else rest

-- The view, as far as it is read: the leader, its database, the members.
pub record View : Type 0 where
  pub leader : String
  pub endpoint : String × ℤ
  pub members : List Listed

not_supported : Error
not_supported = Error.plain "not supported"

module _ {E : Type 0} (s : Store E) (encode : MemberRecord → String)
    (decode : String → Option MemberRecord) where
  -- `registerMember`.
  unfoldable pub register_member : Coordinator → Op E (Unit {0})
  unfolding member_database_endpoint
  register_member c =
      let (host, port) = member_database_endpoint c in
      s.put (member_key c.conf c.member_name) (
        encode (record {
          id = c.local_id;
          name = c.member_name;
          database = c.db_type;
          db_host = host;
          db_port = port;
        }))

  abbrev started : Coordinator → Result (Unit {0}) × E → Result (Unit {0}) × Coordinator × E
  started c (ok t, e) = (ok t, record c { client = true }, e)
  started c (err x, e) = (err x, record c { client = false }, e)

  -- `Start`, up to the goroutine that tries to lead; `failed` is the error of opening the client.
  unfoldable pub start_coordinator :
      Option Error → Coordinator → E → Result (Unit {0}) × Coordinator × E
  unfolding register_member
  start_coordinator failed c e = elim (etcd_endpoints c.conf) [
    | [] ↦ (err (Error.plain "provider is not implemented"), c, e)
    | h ∷ hs ↦ elim failed [ some x ↦ (err x, c, e) | none ↦ started c (register_member c e) ]
  ]

  -- `AddMember` and `RemoveMember`.
  unfoldable pub add_member : Coordinator → String → Op E (Unit {0})
  unfolding not_supported
  add_member c id e =
      if c.client
      then s.put (member_key c.conf id)
          (encode
            (record { id = id; name = id; database = c.db_type; db_host = ""; db_port = pos 0 }))
          e
      else (err not_supported, e)

  unfoldable pub remove_member : Coordinator → String → Op E (Unit {0})
  unfolding not_supported
  remove_member c id e =
      if c.client then s.remove (member_key c.conf id) e else (err not_supported, e)

  listed : List String → List Listed
  unfolding port_text
  listed [] = []
  listed (v ∷ vs) =
      let rest = listed vs in
      elim (decode v) [
        | none ↦ rest
        | some r ↦
            record {
              id = r.id;
              name = r.name;
              database = r.database;
              db_host = r.db_host;
              db_port = port_text r.db_port;
            }
            ∷ rest
      ]

  abbrev viewed : String → Result (List String) × E → Result View × E
  viewed leader (err x, e) = (err x, e)
  viewed leader (ok vs, e) = (
    ok (record {
      leader = leader;
      endpoint = leader_database_endpoint (listed vs) leader;
      members = listed vs;
    }),
    e,
  )

  abbrev named : Coordinator → Result (Option String) × E → Result View × E
  named c (err x, e) = (err x, e)
  named c (ok none, e) = viewed c.leader_id (s.get_all (member_prefix c.conf) e)
  named c (ok (some v), e) = viewed v (s.get_all (member_prefix c.conf) e)

  -- `ClusterView`.
  unfoldable pub etcd_cluster_view : Coordinator → Op E View
  unfolding listed leader_database_endpoint not_supported
  etcd_cluster_view c e =
      if c.client then named c (s.get (leader_key c.conf) e) else (err not_supported, e)
