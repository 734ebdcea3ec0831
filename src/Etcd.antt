-- ===== src/Etcd.antt =====
-- internal/coordination/etcd: the coordinator that elects a leader by a key in etcd, with keys.go
-- and member.go. The client of etcd is not part of the program: `Store` has the calls that are used,
-- on an environment `E`, and the encoding of a member record is a parameter.
pub mod Leases
pub mod Exclusion
pub mod Members
pub mod Examples
use Prim.Native.Char.{code}
use Prim.Native.String.{◌++◌}
use neoha.Common.{
  Bool, true, false, not, ◌&&◌, ◌||◌, ℕ, zero, suc, ◌==◌, ltb, String, Option, none, some, List, [],
  ◌∷◌, if◌then◌else◌, str_eq,
}
use neoha.Common.Result.{Result, ok, err, Error}
use neoha.Common.Text.{ℤ, pos, negsuc, is_empty, is_positive, atoi, itoa}
use neoha.Driver.{Op}

pub record EtcdConfig : Type 0 where
  pub host : String
  pub hosts : List String
  pub ttl : ℤ

-- What is read of `config.Config`: the section of etcd and the TTL of the bootstrap, if they are
-- there, and the endpoint of the database.
pub record Config : Type 0 where
  pub name_space : String
  pub scope : String
  pub endpoint : String
  pub name : String
  pub db_type : String
  pub etcd : Option EtcdConfig
  pub dcs_ttl : Option ℤ
  pub mysql_endpoint : Option (String × String × ℤ)  -- ReplHost, Host, Port
  pub postgresql_address : Option String

ends_in_slash : String → Bool
ends_in_slash String.[] = false
ends_in_slash (String.◌∷◌ c s) = if is_empty s then code c == b'/' else ends_in_slash s

-- `clusterPrefix`.
unfoldable pub cluster_prefix : Config → String
unfolding ends_in_slash
cluster_prefix conf =
    let ns = if is_empty conf.name_space then "/service/" else conf.name_space in
    let scope = if is_empty conf.scope then "database" else conf.scope in
    (if ends_in_slash ns then ns else ns ++ "/") ++ scope

-- `leaderKey`, `memberKey`, `memberPrefix`.
unfoldable pub leader_key : Config → String
leader_key conf = cluster_prefix conf ++ "/leader"

unfoldable pub member_key : Config → String → String
member_key conf name = cluster_prefix conf ++ "/members/" ++ name

unfoldable pub member_prefix : Config → String
member_prefix conf = cluster_prefix conf ++ "/members/"

-- `etcdEndpoints`.
unfoldable pub etcd_endpoints : Config → List String
etcd_endpoints conf = elim conf.etcd [
  | none ↦ []
  | some ec ↦ elim ec.hosts [ [] ↦ if is_empty ec.host then [] else ec.host ∷ [] | h ∷ hs ↦ h ∷ hs ]
]

abbrev or_dcs : Option ℤ → ℤ
or_dcs none = pos 30
or_dcs (some t) = if is_positive t then t else pos 30

-- `leaseTTL`.
unfoldable pub lease_ttl : Config → ℤ
lease_ttl conf = elim conf.etcd [
  | none ↦ or_dcs conf.dcs_ttl
  | some ec ↦ if is_positive ec.ttl then ec.ttl else or_dcs conf.dcs_ttl
]

-- What is used of the transactions of etcd: comparisons, which all have to hold, and operations.
pub data Compare : Type 0 where
  create_revision_is : String → ℕ → Compare

pub data TxnOp : Type 0 where
  op_put : String → String → ℕ → TxnOp  -- the key, the value, the lease
  op_get : String → TxnOp

pub data TxnAnswer : Type 0 where
  put_answer : TxnAnswer
  range_answer : List String → TxnAnswer

pub record TxnResponse : Type 0 where
  pub succeeded : Bool
  pub responses : List TxnAnswer

-- A lease is a number, and none is 0.
pub record Store (E : Type 0) : Type 0 where
  pub grant : ℤ → Op E ℕ
  pub keep_alive_once : ℕ → Op E (Unit {0})
  pub txn : List Compare → TxnOp → TxnOp → Op E TxnResponse  -- If, Then, Else, and Commit
  pub get : String → Op E (Option String)
  pub get_all : String → Op E (List String)
  pub put : String → String → Op E (Unit {0})
  pub remove : String → Op E (Unit {0})

pub record Coordinator : Type 0 where
  pub conf : Config
  pub local_id : String
  pub member_name : String
  pub db_type : String
  pub client : Bool
  pub lease_id : ℕ
  pub is_leader : Bool
  pub leader_id : String

-- `New`, for a configuration.
unfoldable pub new_coordinator : Config → Coordinator
new_coordinator conf = record {
  conf = conf;
  local_id = conf.endpoint;
  member_name = conf.name;
  db_type = if is_empty conf.db_type then "mysql" else conf.db_type;
  client = false;
  lease_id = 0;
  is_leader = false;
  leader_id = "";
}

-- Where `tryAcquireLeader` stands between two calls of the client.
pub data Phase : Type 0 where
  at_rest : Phase
  to_grant : Phase
  to_commit : ℕ → Phase

abbrev pub given_up : Coordinator → Coordinator
given_up c = record c { is_leader = false; lease_id = 0 }

-- The first value of a first answer that has any.
abbrev pub leader_val : List TxnAnswer → String
leader_val (range_answer (v ∷ vs) ∷ rest) = v
leader_val rest = ""

module _ {E : Type 0} (s : Store E) where
  abbrev pub kept : Coordinator → Result (Unit {0}) × E → Coordinator × Phase × E
  kept c (ok t, e) = (c, at_rest, e)
  kept c (err x, e) = (given_up c, to_grant, e)

  -- The first part: a leader keeps its lease alive, and goes on only if it cannot.
  unfoldable pub begin : Coordinator → E → Coordinator × Phase × E
  begin c e =
      if not c.client
      then (c, at_rest, e)
      else if c.is_leader && not (c.lease_id == 0)
      then kept c (s.keep_alive_once c.lease_id e)
      else (c, to_grant, e)

  abbrev pub granted : Coordinator → Result ℕ × E → Coordinator × Phase × E
  granted c (ok l, e) = (c, to_commit l, e)
  granted c (err x, e) = (c, at_rest, e)

  unfoldable pub grant : Coordinator → E → Coordinator × Phase × E
  grant c e = granted c (s.grant (lease_ttl c.conf) e)

  abbrev pub committed : Coordinator → ℕ → Result TxnResponse × E → Coordinator × Phase × E
  committed c l (err x, e) = (c, at_rest, e)
  committed c l (ok rsp, e) =
      if rsp.succeeded
      then (record c { is_leader = true; leader_id = c.local_id; lease_id = l }, at_rest, e)
      else (
        record c { is_leader = false; leader_id = leader_val rsp.responses; lease_id = 0 },
        at_rest,
        e,
      )

  -- The transaction: where the key was never created, it is written with the lease.
  unfoldable pub commit : ℕ → Coordinator → E → Coordinator × Phase × E
  commit l c e =
      let key = leader_key c.conf in
      committed c l (s.txn (create_revision_is key 0 ∷ []) (op_put key c.local_id l) (op_get key) e)

  unfoldable pub advance : Phase → Coordinator → E → Coordinator × Phase × E
  unfolding begin grant commit
  advance at_rest c e = begin c e
  advance to_grant c e = grant c e
  advance (to_commit l) c e = commit l c e

  after_commit : Coordinator × Phase × E → Coordinator × E
  after_commit (c, p, e) = (c, e)

  after_grant : Coordinator × Phase × E → Coordinator × E
  unfolding after_commit
  after_grant (c, at_rest, e) = (c, e)
  after_grant (c, to_grant, e) = (c, e)
  after_grant (c, to_commit l, e) = after_commit (commit l c e)

  after_begin : Coordinator × Phase × E → Coordinator × E
  unfolding after_grant
  after_begin (c, at_rest, e) = (c, e)
  after_begin (c, to_grant, e) = after_grant (grant c e)
  after_begin (c, to_commit l, e) = (c, e)

  -- `tryAcquireLeader`, where nothing happens between its parts.
  unfoldable pub try_acquire_leader : Coordinator → E → Coordinator × E
  unfolding after_begin
  try_acquire_leader c e = after_begin (begin c e)
