-- ===== src/Reconcile.antt =====
-- internal/ha: the reconcile loop, which makes the database follow the coordinator. The hooks of
-- primary_hook.go and the cycle of reconcile.go act on a `World`: the reconciler, the environment of
-- the driver, and the commands that were issued.
pub mod Target
pub mod Hooks
pub mod Cycle
pub mod Engine
pub mod Examples
use neoha.Common.{Bool, true, false, String, Option, none, some, List, [], ◌∷◌, if◌then◌else◌}
use neoha.Common.Result.{Result, ok, err, Error}
use neoha.Common.Text.{ℤ}
use neoha.Driver.{Driver, Role, PrimaryRef, Op}

-- `PrimaryHooks`.
pub record PrimaryHooks : Type 0 where
  pub on_start : String
  pub on_stop : String
  pub active : Bool
  pub skip_start_once : Bool

-- `Reconciler`, with the one tag that it reads.
pub record Reconciler : Type 0 where
  pub nofailover : Bool
  pub hooks : Option PrimaryHooks
  pub apply_promote : Bool
  pub defensive_stop_done : Bool
  pub last_replica_primary : String
  pub mysql_port : ℤ

-- `coordination.ClusterView`, as far as it is read.
pub record ClusterView : Type 0 where
  pub leader_id : String
  pub leader_host : String
  pub leader_port : ℤ

-- The coordinator, the shell that runs hooks, and `ctx.Err()`.
pub record Outside (D : Type 0) : Type 0 where
  pub is_leader : D → Bool × D
  pub cluster_view : Op D ClusterView
  pub local_id : String
  pub ctx_err : D → Option Error
  pub run_command : String → Op D (Unit {0})

pub data Command : Type 0 where
  start_hook stop_hook : Command
  apply_primary apply_primary_mgr_phase2 demote : Command
  apply_replica : PrimaryRef → Command

pub record World (D : Type 0) : Type 0 where
  pub rec : Reconciler
  pub env : D
  pub trace : List Command  -- newest first

abbrev pub M : Type 0 → Type 0 → Type 0
M D A = World D → Result A × World D

abbrev pub after : {D A B : Type 0} → Result A × World D → (A → M D B) → Result B × World D
after (ok a, w) f = f a w
after (err e, w) f = (err e, w)

infixl 5 ◌>>=◌ ◌>>◌
abbrev pub ◌>>=◌ : {D A B : Type 0} → M D A → (A → M D B) → M D B
◌>>=◌ m f w = after (m w) f

abbrev pub ◌>>◌ : {D B : Type 0} → M D (Unit {0}) → M D B → M D B
m >> k = m >>= λ _. k

abbrev pub done : {D : Type 0} → M D (Unit {0})
done w = (ok tt, w)

-- A call that only asks, and one that acts.
abbrev pub ask : {D A : Type 0} → Op D A → M D A
ask f w = let (x, e) = f w.env in (x, record w { env = e })

abbrev pub issue : {D : Type 0} → Command → Op D (Unit {0}) → M D (Unit {0})
issue c f w = let (x, e) = f w.env in (x, record w { env = e; trace = c ∷ w.trace })

abbrev pub set_hooks : {D : Type 0} → PrimaryHooks → World D → World D
set_hooks h w = record w { rec = record (w.rec) { hooks = some h } }
