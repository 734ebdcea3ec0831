-- ===== src/Driver.antt =====
-- internal/database/driver/driver.go: what the HA layer asks of a database engine. An operation
-- acts on an environment `D`, in which the database runs.
use neoha.Common.{Bool, false, String, ◌≡◌}
use neoha.Common.Result.{Result, ok}
use neoha.Common.Text.{ℤ}

pub data Role : Type 0 where
  role_unknown role_primary role_replica role_read_only role_invalid : Role

pub record PrimaryRef : Type 0 where
  pub member_id : String
  pub host : String
  pub port : ℤ

pub record Health : Type 0 where
  pub alive : Bool
  pub writable : Bool
  pub role : Role

-- One call: its result, and the environment after it.
abbrev pub Op : Type 0 → Type 0 → Type 0
Op D A = D → Result A × D

-- `Driver`, with `MGRLifecycle` where the engine has it and is in group replication.
pub record Driver (D : Type 0) : Type 0 where
  pub promotable : D → (Bool × String) × D
  pub status : Op D Health
  pub apply_primary : Op D (Unit {0})
  pub apply_replica : PrimaryRef → Op D (Unit {0})
  pub demote : Op D (Unit {0})
  pub is_mgr_mode : Bool
  pub mgr_primary_phase1_done : Op D Bool
  pub mgr_cluster_writable_ready : Op D Bool
  pub apply_primary_mgr_phase2 : Op D (Unit {0})
  pub mgr_replica_joined : Op D Bool

-- What a replica relies on: `Closed` says that the database takes no writes.
pub record ClosesWrites {D : Type 0} (d : Driver D) (Closed : D → Type 0) : Type 0 where
  pub demoted : (e : D) → (d.demote e).0 ≡ ok tt → Closed (d.demote e).1
  pub reported :
      (e : D) (h : Health) → (d.status e).0 ≡ ok h → h.writable ≡ false → Closed (d.status e).1
  pub joined : (e : D) → Closed e → Closed (d.mgr_replica_joined e).1
  pub replicated :
      (p : PrimaryRef) (e : D)
      → Closed e
      → (d.apply_replica p e).0 ≡ ok tt
      → Closed (d.apply_replica p e).1
