-- ===== src/Reconcile/Hooks/Exposure.antt =====
-- What PrimaryHooks of internal/ha/primary_hook.go promises: a switch that is on or off.
use neoha.Common.{
  Bool, true, not, ◌&&◌, ◌||◌, ◌≡◌, arith, some, none, List, [], ◌∷◌, inl, inr, String,
  Option-cases, Option,
}
use neoha.Common.Result.{is_ok}
use neoha.Reconcile.{PrimaryHooks, World, M, Outside}
use neoha.Reconcile.Hooks.{ensure_primary, ensure_replica, run_stop_if_configured, hook_configured}

-- The calls of the reconciler.
pub data Call : Type 0 where
  to_primary to_replica to_stop : Call

-- The switch after a call, by its result alone: `configured` is said of the start hook.
abbrev pub switched : Bool → Call → Bool → Bool → Bool
switched configured to_primary fine on = on || (configured && fine)
switched configured to_replica fine on = on && not fine
switched configured to_stop fine on = on

abbrev pub replay : Bool → List (Call × Bool) → Bool → Bool
replay configured [] on = on
replay configured ((c, fine) ∷ cs) on = replay configured cs (switched configured c fine on)

-- What can be seen of the hooks: the two commands, and the switch.
abbrev pub view : {D : Type 0} → World D → Option (String × String × Bool)
view w = elim w.rec.hooks [ none ↦ none | some h ↦ some (h.on_start, h.on_stop, h.active) ]

module _ {D : Type 0} (o : Outside D) where
  abbrev pub call : Call → PrimaryHooks → M D (Unit {0})
  call to_primary h = ensure_primary o h
  call to_replica h = ensure_replica o h
  call to_stop h = run_stop_if_configured o h

  -- A call on the world's hooks, and what it answers.
  abbrev pub call_in : Call → World D → Bool × World D
  call_in c w = elim w.rec.hooks [
    | none ↦ (true, w)
    | some h ↦ (is_ok (call c h w).0, (call c h w).1)
  ]

  unfoldable pub calls : List Call → World D → List (Call × Bool) × World D
  calls [] w = ([], w)
  calls (c ∷ cs) w =
      let (fine, w') = call_in c w in let (rest, w'') = calls cs w' in ((c, fine) ∷ rest, w'')

  view-call :
      (c : Call) (h : PrimaryHooks) (w : World D)
      → w.rec.hooks ≡ some h
      → view (call c h w).1
        ≡ some (
          h.on_start,
          h.on_stop,
          switched (hook_configured h.on_start) c (is_ok (call c h w).0) h.active,
        )
  unfolding ensure_primary ensure_replica run_stop_if_configured
  view-call to_primary h w e = ground (arith, e)
  view-call to_replica h w e = ground (arith, e)
  view-call to_stop h w e = ground (arith, e)

  view-call_in :
      (c : Call) (w : World D) (start stop : String) (on : Bool)
      → view w ≡ some (start, stop, on)
      → view (call_in c w).1
        ≡ some (start, stop, switched (hook_configured start) c (call_in c w).0 on)
  view-call_in c w start stop on e = elim (Option-cases w.rec.hooks) [
    | inl n ↦ absurd (ground (arith, n, e))
    | inr (h, n) ↦ ground (arith, n, e, view-call c h w n)
  ]

  -- The hooks implement a switch: over any sequence of EnsurePrimary, EnsureReplica and
  -- RunStopIfConfigured, with any results of the commands, the two commands stay and the active
  -- flag is what replaying the calls on one bit gives: on after an EnsurePrimary that succeeds
  -- with a start hook, off after an EnsureReplica that succeeds, and otherwise as before.
  pub calls-refines :
      (cs : List Call) (w : World D) (start stop : String) (on : Bool)
      → view w ≡ some (start, stop, on)
      → view (calls cs w).1 ≡ some (start, stop, replay (hook_configured start) (calls cs w).0 on)
  unfolding calls
  calls-refines [] w start stop on e = e
  calls-refines (c ∷ cs) w start stop on e =
      calls-refines cs (call_in c w).1 start stop
        (switched (hook_configured start) c (call_in c w).0 on) (view-call_in c w start stop on e)
