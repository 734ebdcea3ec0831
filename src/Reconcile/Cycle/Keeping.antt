-- ===== src/Reconcile/Cycle/Keeping.antt =====
-- What a cycle of internal/ha/reconcile.go keeps of the environment.
use neoha.Common.{
  Bool, true, false, ◌≡◌, refl, arith, if◌then◌else◌, Bool-cases, Option-cases, inl, inr, String,
  ◌||◌, ℕ, zero, suc, ◌∙◌, not, ◌&&◌,
}
use neoha.Common.Result.{Result, ok, err}
use neoha.Driver.{Driver, Health, PrimaryRef}
use neoha.Reconcile.{World, M, Command, Outside, ◌>>◌, after, ask, issue, done}
use neoha.Reconcile.Hooks.{ensure_replica, run_stop_if_configured}
use neoha.Reconcile.Cycle.{
  run_once, compute_desired, apply_desired, defensive_stop, apply_as_replica,
  apply_replica_if_needed, withdraw, step_down, follow, refollow, DesiredState, is_primary,
  remember, apply_as_primary, cycles,
}
use neoha.Reconcile.Cycle.Safety.{promotions, run_once_promotes}
use neoha.Reconcile.Target.{enrich_primary_ref, replica_target_key}

module _ {D : Type 0} (P : D → Type 0) where
  abbrev pub Keeps : {A : Type 0} → M D A → Type 0
  Keeps m = (w : World D) → P w.env → P (m w).1.env

  pub after-Keeps :
      {A B : Type 0} (x : Result A × World D) (f : A → M D B)
      → ((a : A) → Keeps (f a))
      → P x.1.env
      → P (after x f).1.env
  after-Keeps (ok a, w) f h c = h a w c
  after-Keeps (err x, w) f h c = c

  module _ (o : Outside D) (d : Driver D)
      (quiet_hooks : (c : String) (e : D) → P e → P (o.run_command c e).1) where
    pub ensure_replica-Keeps : (h : _) → Keeps (ensure_replica o h)
    unfolding ensure_replica
    ensure_replica-Keeps h w c = ground (arith, quiet_hooks h.on_stop w.env c, c)

    pub withdraw-Keeps : Keeps (withdraw o d)
    unfolding withdraw
    withdraw-Keeps w c = elim (Option-cases w.rec.hooks) [
      | inl e ↦ rw (e, withdraw) c
      | inr (h, e) ↦ rw (e, withdraw) (ensure_replica-Keeps h w c)
    ]

    run_stop-Keeps : (h : _) → Keeps (run_stop_if_configured o h)
    unfolding run_stop_if_configured
    run_stop-Keeps h w c = ground (arith, quiet_hooks h.on_stop w.env c, c)

    defensive_stop-Keeps :
        (s : DesiredState) (w : World D) → P w.env → P (defensive_stop o d s w).env
    unfolding defensive_stop
    defensive_stop-Keeps s w c =
        let w' = record w { rec = record (w.rec) { defensive_stop_done = true } } in
        elim (Option-cases w.rec.hooks) [
          | inl e ↦ elim (Bool-cases (w.rec.defensive_stop_done || is_primary s.db_role)) [
            | inl b ↦ rw (b, defensive_stop) c
            | inr b ↦ rw (b, e, defensive_stop) c
          ]
          | inr (h, e) ↦ elim (Bool-cases (w.rec.defensive_stop_done || is_primary s.db_role)) [
            | inl b ↦ rw (b, defensive_stop) c
            | inr b ↦ rw (b, e, defensive_stop) (run_stop-Keeps h w' c)
          ]
        ]

    -- An engine that refuses the promotion, and whose other operations keep the environment.
    module _ (refused : (e : D) → P e → ((d.promotable e).0.0 ≡ false) × P (d.promotable e).1)
        (led : (e : D) → P e → P (o.is_leader e).1)
        (viewed : (e : D) → P e → P (o.cluster_view e).1) (shown : (e : D) → P e → P (d.status e).1)
        (demoted : (e : D) → P e → P (d.demote e).1)
        (joined : (e : D) → P e → P (d.mgr_replica_joined e).1)
        (replicated : (r : PrimaryRef) (e : D) → P e → P (d.apply_replica r e).1) where
      follow-Keeps : (r : PrimaryRef) (k : String) → Keeps (follow o d r k)
      unfolding follow
      follow-Keeps r k w c =
          after-Keeps (issue (Command.apply_replica r) (d.apply_replica r) w) (λ _. remember o d k)
            (λ _ w c. c) (replicated r w.env c)

      rejoined :
          (r : PrimaryRef) (k : String) (b : Bool)
          → Keeps (if b then done else (remember o d "" >> follow o d r k))
      rejoined r k true w c = c
      rejoined r k false w c =
          follow-Keeps r k (record w { rec = record (w.rec) { last_replica_primary = "" } }) c

      refollow-Keeps : (r : PrimaryRef) (k : String) → Keeps (refollow o d r k)
      unfolding refollow
      refollow-Keeps r k w c = elim (Bool-cases d.is_mgr_mode) [
        | inl e ↦
            rw (e, refollow)
              (after-Keeps (ask d.mgr_replica_joined w)
                (λ b. if b then done else (remember o d "" >> follow o d r k)) (rejoined r k)
                (joined w.env c))
        | inr e ↦ rw (e, refollow) c
      ]

      apply_replica-Keeps : (s : DesiredState) → Keeps (apply_replica_if_needed o d s)
      unfolding apply_replica_if_needed
      apply_replica-Keeps s w c =
          let r = enrich_primary_ref s.primary w.rec.mysql_port in
          let key = replica_target_key r in
          ground (arith, refollow-Keeps r key w c, follow-Keeps r key w c, c)

      last_step-Keeps :
          (s : DesiredState)
          → Keeps (λ w. if w.rec.apply_promote then apply_replica_if_needed o d s w else done w)
      last_step-Keeps s w c = ground (arith, apply_replica-Keeps s w c, c)

      step_down-Keeps : (h : Health) → Keeps (step_down o d h)
      unfolding step_down
      step_down-Keeps h w c = ground (arith, demoted w.env c, c)

      apply_as_replica-Keeps : (s : DesiredState) (h : Health) → Keeps (apply_as_replica o d s h)
      unfolding apply_as_replica
      apply_as_replica-Keeps s h w c =
          let x = after (withdraw o d w) (λ _. step_down o d h) in
          after-Keeps x
            (λ _ w. if w.rec.apply_promote then apply_replica_if_needed o d s w else done w)
            (λ _. last_step-Keeps s)
            (after-Keeps (withdraw o d w) (λ _. step_down o d h) (λ _. step_down-Keeps h)
              (withdraw-Keeps w c))

      pub never_primary :
          (w : World D) → P w.env → is_primary (compute_desired o d w).0.db_role ≡ false
      unfolding compute_desired
      never_primary w c = ground (arith, (refused (o.is_leader w.env).1 (led w.env c)).0)

      chosen : (b : Bool) (e e' : D) → P e → P e' → P (if b then e else e')
      chosen true e e' c c' = c
      chosen false e e' c c' = c'

      compute_desired-Keeps : (w : World D) → P w.env → P (compute_desired o d w).1.env
      unfolding compute_desired
      compute_desired-Keeps w c =
          let e = (o.is_leader w.env).1 in
          let b = (o.is_leader w.env).0 && not w.rec.nofailover in
          let k = led w.env c in
          viewed (if b then (d.promotable e).1 else e)
            (chosen b (d.promotable e).1 e (refused e k).1 k)

      apply_desired-Keeps :
          (s : DesiredState) → is_primary s.db_role ≡ false → Keeps (apply_desired o d s)
      unfolding apply_desired
      apply_desired-Keeps s e w c =
          after-Keeps (ask d.status w)
            (λ h. if is_primary s.db_role then apply_as_primary o d h else apply_as_replica o d s h)
            (λ h. rw e (apply_as_replica-Keeps s h)) (shown w.env c)

      run_once-Keeps : Keeps (run_once o d)
      unfolding run_once
      run_once-Keeps w c =
          let s = (compute_desired o d w).0 in
          let w' = (compute_desired o d w).1 in
          apply_desired-Keeps s (never_primary w c) (defensive_stop o d s w')
            (defensive_stop-Keeps s w' (compute_desired-Keeps w c))

      run_once_quiet :
          (w : World D) → P w.env → promotions (run_once o d w).1.trace ≡ promotions w.trace
      run_once_quiet w c = elim (run_once_promotes o d w) [
        | inl e ↦ e
        | inr (_, able, _) ↦
            let unable = (refused (o.is_leader w.env).1 (led w.env c)).0 in
            let never : ⊥ = cc in absurd never
      ]

      -- Over any number of cycles.
      pub cycles-quiet :
          (n : ℕ) (w : World D)
          → P w.env
          → (promotions (cycles o d n w).trace ≡ promotions w.trace) × P (cycles o d n w).env
      unfolding cycles
      cycles-quiet zero w c = (refl, c)
      cycles-quiet (suc n) w c =
          let (e, k) = cycles-quiet n (run_once o d w).1 (run_once-Keeps w c) in
          (e ∙ run_once_quiet w c, k)
