-- ===== src/Reconcile/Cycle/Closing.antt =====
-- What a cycle of internal/ha/reconcile.go leaves behind where this node is not to be the primary.
use neoha.Common.{
  subst, sym, ap, ◌∙◌, Bool, true, false, ◌≡◌, refl, arith, if◌then◌else◌, Bool-cases, inl, inr,
  String, ◌||◌,
}
use neoha.Common.Result.{Result, ok, err}
use neoha.Driver.{Driver, Health, ClosesWrites}
use neoha.Reconcile.{World, M, Command, Outside, ◌>>◌, after, ask, issue, done}
use neoha.Reconcile.Cycle.{
  run_once, compute_desired, apply_desired, defensive_stop, apply_as_replica,
  apply_replica_if_needed, withdraw, step_down, follow, refollow, DesiredState, is_primary,
  remember, apply_as_primary,
}
use neoha.Reconcile.Cycle.Keeping.{withdraw-Keeps}
use neoha.Reconcile.Target.{enrich_primary_ref, replica_target_key}

-- An inversion: a chain that succeeds has a first step that does.
after-eq-ok :
    {D A B : Type 0} (x : Result A × World D) (f : A → M D B) (b : B)
    → (after x f).0 ≡ ok b
    → (a : A) × (x.0 ≡ ok a) × (after x f ≡ f a x.1)
after-eq-ok (ok a, w) f b h = (a, refl, refl)
after-eq-ok (err e, w) f b h = absurd (cc)

module _ {D : Type 0} (o : Outside D) (d : Driver D) (Closed : D → Type 0)
    (laws : ClosesWrites d Closed)
    (quiet_hooks : (c : String) (e : D) → Closed e → Closed (o.run_command c e).1) where
  -- As far as the step succeeds.
  abbrev Ends : M D (Unit {0}) → Type 0
  Ends m = (w : World D) → Closed w.env → (m w).0 ≡ ok tt → Closed (m w).1.env

  after-Ends :
      {A : Type 0} (x : Result A × World D) (f : A → M D (Unit {0}))
      → ((a : A) → x.0 ≡ ok a → (f a x.1).0 ≡ ok tt → Closed (f a x.1).1.env)
      → (after x f).0 ≡ ok tt
      → Closed (after x f).1.env
  after-Ends (ok a, w) f h k = h a refl k
  after-Ends (err x, w) f h k = absurd (cc)

  follow-Ends : (p : _) (k : _) → Ends (follow o d p k)
  unfolding follow
  follow-Ends p k w c =
      after-Ends (issue (Command.apply_replica p) (d.apply_replica p) w) (λ _. remember o d k)
        (λ _ e _. laws.replicated p w.env c e)

  rejoined :
      (p : _) (k : _) (joined : Bool)
      → Ends (if joined then done else (remember o d "" >> follow o d p k))
  rejoined p k true w c e = c
  rejoined p k false w c e =
      follow-Ends p k (record w { rec = record (w.rec) { last_replica_primary = "" } }) c e

  refollow-Ends : (p : _) (k : _) → Ends (refollow o d p k)
  unfolding refollow
  refollow-Ends p k w c = elim (Bool-cases d.is_mgr_mode) [
    | inl e ↦
        rw (e, refollow)
          (after-Ends (ask d.mgr_replica_joined w)
            (λ joined. if joined then done else (remember o d "" >> follow o d p k))
            (λ j _. rejoined p k j (ask d.mgr_replica_joined w).1 (laws.joined w.env c)))
    | inr e ↦ rw (e, refollow) (λ _. c)
  ]

  apply_replica-Ends : (s : DesiredState) → Ends (apply_replica_if_needed o d s)
  unfolding apply_replica_if_needed
  apply_replica-Ends s w c e =
      let ref = enrich_primary_ref s.primary w.rec.mysql_port in
      let key = replica_target_key ref in
      ground (arith, refollow-Ends ref key w c, follow-Ends ref key w c, c)

  last_step-Ends :
      (s : DesiredState)
      → Ends (λ w. if w.rec.apply_promote then apply_replica_if_needed o d s w else done w)
  last_step-Ends s w c e = ground (arith, apply_replica-Ends s w c, c)

  -- After the demotion, or without the need for one.
  step_down_closes :
      (h : Health) (w : World D)
      → (h.writable ≡ false → Closed w.env)
      → (step_down o d h w).0 ≡ ok tt
      → Closed (step_down o d h w).1.env
  unfolding step_down
  step_down_closes h w c k = elim (Bool-cases (h.writable || is_primary h.role)) [
    | inl e ↦ rw (e, step_down) (laws.demoted w.env (rw (e, step_down) at k))
    | inr e ↦ rw (e, step_down) (c (ground (arith, e)))
  ]

  apply_as_replica_closes :
      (s : DesiredState) (h : Health) (w : World D)
      → (h.writable ≡ false → Closed w.env)
      → (apply_as_replica o d s h w).0 ≡ ok tt
      → Closed (apply_as_replica o d s h w).1.env
  unfolding apply_as_replica
  apply_as_replica_closes s h w c k =
      let last = λ (_ : Unit {0}) (w : World D).
        if w.rec.apply_promote then apply_replica_if_needed o d s w else done w in
      let first = after-eq-ok (after (withdraw o d w) (λ _. step_down o d h)) last tt k in
      let second = after-eq-ok (withdraw o d w) (λ _. step_down o d h) first.0 first.1 in
      let w' = (withdraw o d w).1 in
      let closed =
        step_down_closes h w' (λ e. withdraw-Keeps Closed o d quiet_hooks w (c e))
          (sym (ap (λ (p : Result (Unit {0}) × World D). p.0) second.2) ∙ first.1) in
      let stepped = after (withdraw o d w) (λ _. step_down o d h) in
      let mid = subst (λ (p : Result (Unit {0}) × World D). Closed p.1.env) (sym second.2) closed in
      subst (λ (p : Result (Unit {0}) × World D). Closed p.1.env) (sym first.2)
        (last_step-Ends s stepped.1 mid
          (sym (ap (λ (p : Result (Unit {0}) × World D). p.0) first.2) ∙ k))

  replica_closes :
      (s : DesiredState) (w : World D)
      → is_primary s.db_role ≡ false
      → (apply_desired o d s w).0 ≡ ok tt
      → Closed (apply_desired o d s w).1.env
  unfolding apply_desired
  replica_closes s w e k =
      let act = λ (h : Health).
        if is_primary s.db_role then apply_as_primary o d h else apply_as_replica o d s h in
      let first = after-eq-ok (ask d.status w) act tt k in
      let h = first.0 in
      let chosen : act h (ask d.status w).1 ≡ apply_as_replica o d s h (ask d.status w).1 =
        rw e refl in
      let k' = sym (ap (λ (p : Result (Unit {0}) × World D). p.0) (first.2 ∙ chosen)) ∙ k in
      subst (λ (p : Result (Unit {0}) × World D). Closed p.1.env) (sym (first.2 ∙ chosen))
        (apply_as_replica_closes s h (ask d.status w).1 (laws.reported w.env h first.1) k')

  pub run_once_closes :
      (w : World D)
      → is_primary (compute_desired o d w).0.db_role ≡ false
      → (run_once o d w).0 ≡ ok tt
      → Closed (run_once o d w).1.env
  unfolding run_once
  run_once_closes w e k =
      let s = (compute_desired o d w).0 in
      replica_closes s (defensive_stop o d s (compute_desired o d w).1) e k
