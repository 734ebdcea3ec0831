-- ===== src/Reconcile/Cycle.antt =====
-- One cycle of internal/ha/reconcile.go.
pub mod Safety
pub mod Keeping
pub mod Closing
use neoha.Common.{
  Bool, true, false, not, ◌&&◌, ◌||◌, ℕ, zero, suc, String, Option, none, some, if◌then◌else◌,
  str_eq,
}
use neoha.Common.Result.{Result, ok, err, is_ok}
use neoha.Common.Text.{ℤ, pos, is_positive, is_empty}
use neoha.Driver.{Driver, Role, role_primary, role_replica, PrimaryRef, Health}
use neoha.Reconcile.{
  Reconciler, ClusterView, Outside, World, M, Command, ◌>>=◌, ◌>>◌, done, ask, issue,
}
use neoha.Reconcile.Hooks.{ensure_primary, ensure_replica, run_stop_if_configured}
use neoha.Reconcile.Target.{enrich_primary_ref, replica_target_key}

-- `DesiredState`, without the reason that is only logged.
pub record DesiredState : Type 0 where
  pub is_coord_leader : Bool
  pub db_role : Role
  pub primary : PrimaryRef

abbrev no_primary : PrimaryRef
no_primary = record { member_id = ""; host = ""; port = pos 0 }

-- The leader that the coordinator names, with its database where it is known.
primary_of : Result ClusterView → PrimaryRef
primary_of (err e) = no_primary
primary_of (ok v) =
    if is_empty v.leader_id
    then no_primary
    else if not (is_empty v.leader_host) && is_positive v.leader_port
    then record { member_id = v.leader_id; host = v.leader_host; port = v.leader_port }
    else record no_primary { member_id = v.leader_id }

abbrev pub is_primary : Role → Bool
is_primary role_primary = true
is_primary _ = false

module _ {D : Type 0} (o : Outside D) (d : Driver D) where
  -- `computeDesired`: the driver is asked only where this node may become primary.
  unfoldable pub compute_desired : World D → DesiredState × World D
  unfolding primary_of
  compute_desired w =
      let (leads, e1) = o.is_leader w.env in
      let ((able, _), e2) = d.promotable e1 in
      let eligible = leads && not w.rec.nofailover in
      let e = if eligible then e2 else e1 in
      let (view, e') = o.cluster_view e in
      (
        record {
          is_coord_leader = leads;
          db_role = if eligible && able then role_primary else role_replica;
          primary = primary_of view;
        },
        record w { env = e' },
      )

  -- `applyMGRPrimary`.
  apply_mgr_primary : M D (Unit {0})
  apply_mgr_primary = do
    phase1 ← ask d.mgr_primary_phase1_done
    if phase1 then done else issue Command.apply_primary d.apply_primary
    health ← ask d.status
    if health.writable
        then done
        else (ask d.mgr_cluster_writable_ready >>= λ ready.
            if ready
            then issue Command.apply_primary_mgr_phase2 d.apply_primary_mgr_phase2
            else done)

  -- The promotion of applyDesired, where the database takes no writes yet.
  promote : Health → M D (Unit {0})
  unfolding apply_mgr_primary
  promote health =
      if d.is_mgr_mode
      then apply_mgr_primary
      else if is_primary health.role
      then done
      else issue Command.apply_primary d.apply_primary

  announce : Health → M D (Unit {0})
  announce health w = elim w.rec.hooks [
    | none ↦ done w
    | some h ↦ if health.writable then ensure_primary o h w else done w
  ]

  -- The branch of applyDesired for the primary role.
  apply_as_primary : Health → M D (Unit {0})
  unfolding promote announce
  apply_as_primary health w =
      if w.rec.apply_promote && not health.writable
      then (promote health >> (ask d.status >>= announce)) w
      else announce health w

  -- `lastReplicaPrimary` is set by itself.
  abbrev remember : String → M D (Unit {0})
  remember key w = done (record w { rec = record (w.rec) { last_replica_primary = key } })

  follow : PrimaryRef → String → M D (Unit {0})
  follow ref key = issue (Command.apply_replica ref) (d.apply_replica ref) >> remember key

  -- The target is the one of the last time: only a group member that has dropped out joins again.
  refollow : PrimaryRef → String → M D (Unit {0})
  unfolding follow
  refollow ref key =
      if d.is_mgr_mode
      then (ask d.mgr_replica_joined >>= λ joined.
          if joined then done else (remember "" >> follow ref key))
      else done

  -- `applyReplicaIfNeeded`.
  unfoldable pub apply_replica_if_needed : DesiredState → M D (Unit {0})
  unfolding refollow
  apply_replica_if_needed s w =
      let ref = enrich_primary_ref s.primary w.rec.mysql_port in
      let key = replica_target_key ref in
      if is_empty s.primary.member_id || str_eq s.primary.member_id o.local_id
      then remember "" w
      else if is_empty key
      then done w
      else if str_eq key w.rec.last_replica_primary
      then refollow ref key w
      else follow ref key w

  pub withdraw : M D (Unit {0})
  withdraw w = elim w.rec.hooks [ none ↦ done w | some h ↦ ensure_replica o h w ]

  step_down : Health → M D (Unit {0})
  step_down health =
      if health.writable || is_primary health.role then issue Command.demote d.demote else done

  -- The branch for every other role.
  apply_as_replica : DesiredState → Health → M D (Unit {0})
  unfolding withdraw step_down
  apply_as_replica s health = withdraw >> step_down health >> λ w.
      if w.rec.apply_promote then apply_replica_if_needed s w else done w

  -- `applyDesired`.
  unfoldable pub apply_desired : DesiredState → M D (Unit {0})
  unfolding apply_as_primary apply_as_replica
  apply_desired s = ask d.status >>= λ health.
      if is_primary s.db_role then apply_as_primary health else apply_as_replica s health

  -- The stop hook of the first cycle as a replica; its error is only logged.
  defensive_stop : DesiredState → World D → World D
  defensive_stop s w =
      let w' = record w { rec = record (w.rec) { defensive_stop_done = true } } in
      if w.rec.defensive_stop_done || is_primary s.db_role
      then w
      else elim w.rec.hooks [ none ↦ w' | some h ↦ (run_stop_if_configured o h w').1 ]

  -- `RunOnce`.
  unfoldable pub run_once : M D (Unit {0})
  unfolding defensive_stop
  run_once w = let (s, w') = compute_desired w in apply_desired s (defensive_stop s w')

  -- The ticks of `Loop`, which logs the error of a cycle and goes on.
  unfoldable pub cycles : ℕ → World D → World D
  cycles zero w = w
  cycles (suc n) w = cycles n (run_once w).1
