-- ===== src/Coordination.antt =====
-- internal/coordination: the election of internal/election/raft as the coordinator of the HA layer
-- (raftadapter/adapter.go), and the choice of a backend (wire/factory.go).
pub mod Leading
pub mod Examples
use neoha.Common.{
  Bool, true, false, ℕ, String, Option, none, some, List, [], ◌∷◌, map, if◌then◌else◌, str_eq, ◌||◌,
}
use neoha.Common.Result.{Result, ok, err, Error}
use neoha.Common.Text.{ℤ, pos}
use neoha.Config.{Config, effective_coordination}
use neoha.Driver.{Op}
use neoha.Raft.State.{Raft}
use neoha.Raft.State.{Db}
use neoha.Raft.Members.{is_leader, get_leader_database_endpoint}
use neoha.Reconcile.{Outside, ClusterView}

pub record Member : Type 0 where
  pub id : String
  pub name : String
  pub database : String

pub record Adapter : Type 0 where
  pub local_id : String
  pub member_name : String
  pub db_type : String

-- `Coordinator.IsLeader`.
unfoldable pub leads : Raft → Bool
leads r = is_leader r.state

-- The members that `Coordinator.ClusterView` lists: the node itself, and the written members.
unfoldable pub members : Adapter → Raft → List Member
members a r =
    record { id = a.local_id; name = a.member_name; database = a.db_type }
    ∷ map (λ p. record { id = p; name = ""; database = a.db_type }) r.meta.peers

-- `Coordinator.ClusterView`, as far as the reconciler reads it.
unfoldable pub cluster_view : Db → Raft → ClusterView
cluster_view db r =
    let (host, port) = get_leader_database_endpoint db r in
    record { leader_id = r.leader; leader_host = host; leader_port = pos port }

-- The coordinator in an environment that has the node and what its database answers.
unfoldable pub raft_outside :
    {E : Type 0}
    → (E → Raft)
    → (E → Db)
    → Adapter
    → (E → Option Error)
    → (String → Op E (Unit {0}))
    → Outside E
unfolding leads cluster_view
raft_outside node db a ctx run = record {
  is_leader = λ e. (leads (node e), e);
  cluster_view = λ e. (ok (cluster_view (db e) (node e)), e);
  local_id = a.local_id;
  ctx_err = ctx;
  run_command = run;
}

pub data Backend : Type 0 where
  raft_backend etcd_backend : Backend

-- `NewCoordinator`, of a configuration that is not nil.
unfoldable pub new_coordinator : Config → Bool → Result Backend
new_coordinator c has_raft =
    let p = (effective_coordination c).provider in
    if str_eq p "raft"
    then (if has_raft
        then ok raft_backend
        else err (Error.plain "raft coordinator requires *raft.Raft"))
    else if str_eq p "etcd"
    then ok etcd_backend
    else if str_eq p "consul" || str_eq p "kubernetes" || str_eq p "zookeeper"
    then err (Error.plain "provider is not implemented")
    else err (Error.plain "unsupported coordination provider")
