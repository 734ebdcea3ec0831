-- ===== src/Reconcile/Cycle/Safety.antt =====
-- Who may promote: the commands that a cycle of internal/ha/reconcile.go issues.
use neoha.Common.{
  Bool, true, false, ◌≡◌, ◌⊎◌, inl, inr, refl, ◌∙◌, List, [], ◌∷◌, ℕ, ◌+◌, arith, if◌then◌else◌,
  Bool-cases, Option-cases,
}
use neoha.Common.Result.{Result, ok, err}
use neoha.Driver.{Driver, Health}
use neoha.Reconcile.{
  World, M, Command, start_hook, apply_primary, apply_primary_mgr_phase2, Outside, ◌>>=◌, ◌>>◌,
  after, ask, issue, done,
}
use neoha.Reconcile.Hooks.{ensure_replica, run_stop_if_configured}
use neoha.Reconcile.Cycle.{
  run_once, compute_desired, apply_desired, defensive_stop, apply_as_replica,
  apply_replica_if_needed, withdraw, step_down, follow, refollow, DesiredState, is_primary,
  remember,
}
use neoha.Reconcile.Target.{enrich_primary_ref, replica_target_key}

-- The commands that make this node serve as the primary.
abbrev pub promotions : List Command → ℕ
promotions [] = 0
promotions (start_hook ∷ cs) = promotions cs + 1
promotions (apply_primary ∷ cs) = promotions cs + 1
promotions (apply_primary_mgr_phase2 ∷ cs) = promotions cs + 1
promotions (c ∷ cs) = promotions cs

module _ {D : Type 0} where
  abbrev IsQuiet : {A : Type 0} → M D A → Type 0
  IsQuiet m = (w : World D) → promotions (m w).1.trace ≡ promotions w.trace

  after-quiet :
      {A B : Type 0} (n : ℕ) (x : Result A × World D) (f : A → M D B)
      → ((a : A) → IsQuiet (f a))
      → promotions x.1.trace ≡ n
      → promotions (after x f).1.trace ≡ n
  after-quiet n (ok a, w) f h e = h a w ∙ e
  after-quiet n (err x, w) f h e = e

  bind-IsQuiet :
      {A B : Type 0} (m : M D A) (f : A → M D B)
      → IsQuiet m
      → ((a : A) → IsQuiet (f a))
      → IsQuiet (m >>= f)
  bind-IsQuiet m f h k w = after-quiet (promotions w.trace) (m w) f k (h w)

  module _ (o : Outside D) (d : Driver D) where
    run_stop-IsQuiet : (h : _) → IsQuiet (run_stop_if_configured o h)
    unfolding run_stop_if_configured
    run_stop-IsQuiet h w = ground arith

    ensure_replica-IsQuiet : (h : _) → IsQuiet (ensure_replica o h)
    unfolding ensure_replica
    ensure_replica-IsQuiet h w = ground arith

    withdraw-IsQuiet : IsQuiet (withdraw o d)
    unfolding withdraw
    withdraw-IsQuiet w = elim (Option-cases w.rec.hooks) [
      | inl e ↦ rw (e, withdraw) refl
      | inr (h, e) ↦ rw (e, withdraw) (ensure_replica-IsQuiet h w)
    ]

    step_down-IsQuiet : (h : Health) → IsQuiet (step_down o d h)
    unfolding step_down
    step_down-IsQuiet h w = ground arith

    follow-IsQuiet : (p : _) (k : _) → IsQuiet (follow o d p k)
    unfolding follow
    follow-IsQuiet p k =
        bind-IsQuiet (issue (Command.apply_replica p) (d.apply_replica p)) (λ _. remember o d k)
          (λ w. refl) (λ _ w. refl)

    rejoined :
        (p : _) (k : _) (joined : Bool)
        → IsQuiet (if joined then done else (remember o d "" >> follow o d p k))
    rejoined p k true w = refl
    rejoined p k false w =
        follow-IsQuiet p k (record w { rec = record (w.rec) { last_replica_primary = "" } })

    abbrev last_step : DesiredState → M D (Unit {0})
    last_step s w = if w.rec.apply_promote then apply_replica_if_needed o d s w else done w

    refollow-IsQuiet : (p : _) (k : _) → IsQuiet (refollow o d p k)
    unfolding refollow
    refollow-IsQuiet p k w = elim (Bool-cases d.is_mgr_mode) [
      | inl e ↦
          rw (e, refollow)
            (bind-IsQuiet (ask d.mgr_replica_joined)
              (λ joined. if joined then done else (remember o d "" >> follow o d p k)) (λ w. refl)
              (rejoined p k) w)
      | inr e ↦ rw (e, refollow) refl
    ]

    apply_replica-IsQuiet : (s : DesiredState) → IsQuiet (apply_replica_if_needed o d s)
    unfolding apply_replica_if_needed
    apply_replica-IsQuiet s w =
        let ref = enrich_primary_ref s.primary w.rec.mysql_port in
        let key = replica_target_key ref in
        ground (arith, refollow-IsQuiet ref key w, follow-IsQuiet ref key w)

    apply_as_replica-IsQuiet : (s : DesiredState) (h : Health) → IsQuiet (apply_as_replica o d s h)
    unfolding apply_as_replica
    apply_as_replica-IsQuiet s h =
        bind-IsQuiet (withdraw o d >> step_down o d h) (λ _. last_step s)
          (bind-IsQuiet (withdraw o d) (λ _. step_down o d h) withdraw-IsQuiet
            (λ _. step_down-IsQuiet h))
          (λ _ w. ground (arith, apply_replica-IsQuiet s w))

    apply_desired-IsQuiet :
        (s : DesiredState) → is_primary s.db_role ≡ false → IsQuiet (apply_desired o d s)
    unfolding apply_desired
    apply_desired-IsQuiet s e w =
        rw (e, apply_desired)
          (bind-IsQuiet (ask d.status) (λ h. apply_as_replica o d s h) (λ w. refl)
            (apply_as_replica-IsQuiet s) w)

    defensive_stop-IsQuiet :
        (s : DesiredState) (w : World D)
        → promotions (defensive_stop o d s w).trace ≡ promotions w.trace
    unfolding defensive_stop
    defensive_stop-IsQuiet s w = elim (Option-cases w.rec.hooks) [
      | inl e ↦ ground (arith, e)
      | inr (h, e) ↦ ground (
        arith,
        e,
        run_stop-IsQuiet h (record w { rec = record (w.rec) { defensive_stop_done = true } }),
      )
    ]

    -- A reconcile cycle runs the start hook, ApplyPrimary or ApplyPrimaryMGRPhase2 (the commands
    -- counted by promotions) only if the coordinator named this node the leader, the driver
    -- found it promotable and the tag nofailover is off; otherwise it issues none.
    pub run_once_promotes :
        (w : World D)
        → (promotions (run_once o d w).1.trace ≡ promotions w.trace)
          ⊎ (((o.is_leader w.env).0 ≡ true)
              × ((d.promotable (o.is_leader w.env).1).0.0 ≡ true)
              × (w.rec.nofailover ≡ false))
    unfolding run_once compute_desired
    run_once_promotes w =
        let s = (compute_desired o d w).0 in
        let w1 = (compute_desired o d w).1 in
        let w2 = defensive_stop o d s w1 in
        elim (Bool-cases (is_primary s.db_role)) [
          | inl e ↦ inr (ground (arith, e))
          | inr e ↦ inl (apply_desired-IsQuiet s e w2 ∙ defensive_stop-IsQuiet s w1)
        ]
