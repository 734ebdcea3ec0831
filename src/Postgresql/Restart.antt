-- ===== src/Postgresql/Restart.antt =====
-- What becomes of a PostgreSQL primary for which NeoHA is started: SetupBootstrap of
-- internal/database/postgresql/driver.go, and then the cycles of internal/ha.
use neoha.Common.{
  Bool, true, false, ℕ, String, List, [], ◌≡◌, refl, ap, ◌∙◌, ◌&&◌, arith, Bool-cases, inl, inr,
}
use neoha.Common.Result.{Result, ok, err}
use neoha.Common.Text.{is_empty}
use neoha.Driver.{PrimaryRef}
use neoha.Reconcile.{Outside, Reconciler}
use neoha.Reconcile.Cycle.{cycles}
use neoha.Reconcile.Cycle.Safety.{promotions}
use neoha.Reconcile.Cycle.Keeping.{cycles-quiet}
use neoha.Postgresql.{Host, Postgresql, Event, M, after, ◌>>◌, check_ctx}
use neoha.Postgresql.Api
use neoha.Postgresql.Applier.{
  postgresql_driver, demote, status, promotable, apply_replica, follow, rewind_first, uses_slots,
  setup_bootstrap, replace_error, as_answer, judge,
}
use neoha.Postgresql.Contract.{Shut, read_only-Shut, rest}
use neoha.Postgresql.Frame.{Frame, Calm, after-ends, ping_db-Calm, is_in_recovery-Calm}
use neoha.Postgresql.Frame.Follow.{apply_streaming_replica-Calm, then_kept, kept}
use neoha.Postgresql.Replica.{apply_streaming_replica}
use neoha.Postgresql.Rewind.{maybe_pg_rewind}
use neoha.Postgresql.Frame.Rewinding.{maybe_pg_rewind-Calm}

module _ (h : Host) (primary : (es : List Event) → h.in_recovery es ≡ ok false) where
  abbrev Asked : M Bool
  Asked =
      check_ctx h >> replace_error "postgresql.not.alive" (Api.ping_db h) >> Api.is_in_recovery h

  no_standby : (p : Postgresql) (b : Bool) → (Api.is_in_recovery h p).0 ≡ ok b → b ≡ false
  unfolding Api.is_in_recovery
  no_standby p b = ground (arith, primary (Api.get_db h p).1.log)

  asked_no_standby : (p : Postgresql) (b : Bool) → (Asked p).0 ≡ ok b → b ≡ false
  asked_no_standby p b =
      let x = (check_ctx h >> replace_error "postgresql.not.alive" (Api.ping_db h)) p in
      after-ends (λ _. b ≡ false) b x (λ _. Api.is_in_recovery h) (λ _ _. no_standby x.1 b)

  reached-Calm : Calm (replace_error "postgresql.not.alive" (Api.ping_db h))
  reached-Calm p = ground (arith, ping_db-Calm h p)

  asked-Calm : Calm Asked
  asked-Calm =
      (then_kept
        (then_kept (kept (check_ctx h) (λ p. refl))
          (kept (replace_error "postgresql.not.alive" (Api.ping_db h)) reached-Calm))
        (kept (Api.is_in_recovery h) (is_in_recovery-Calm h))).calm

  judged :
      (x : Result Bool × Postgresql)
      → ((b : Bool) → x.0 ≡ ok b → b ≡ false)
      → Shut x.1
      → ((as_answer (after x (judge h))).0.0 ≡ false) × Shut (as_answer (after x (judge h))).1
  judged (err e, p) never c = (refl, c)
  judged (ok true, p) never c = let bad = never true refl in absurd (cc)
  judged (ok false, p) never c = (ground (arith, c), c)

  refused : (p : Postgresql) → Shut p → ((promotable h p).0.0 ≡ false) × Shut (promotable h p).1
  unfolding promotable
  refused p c = judged (Asked p) (asked_no_standby p) (ap (λ (f : Frame). f.0) (asked-Calm p) ∙ c)

  shown : (p : Postgresql) → Shut p → Shut (status h p).1
  unfolding status Api.ping_db Api.get_db Api.is_in_recovery
  shown p c = ground (arith, c)

  demoted : (p : Postgresql) → Shut p → Shut (demote h p).1
  unfolding demote Api.set_default_read_only Api.get_db
  demoted p c = ground (arith, c)

  after-Stays :
      {A : Type 0} (x : Result A × Postgresql) (f : A → M (Unit {0}))
      → ((a : A) (q : Postgresql) → Shut q → Shut (f a q).1)
      → Shut x.1
      → Shut (after x f).1
  after-Stays (ok a, q) f k c = k a q c
  after-Stays (err e, q) f k c = c

  closing-Stays : (q : Postgresql) → Shut q → Shut (Api.set_default_read_only h true q).1
  unfolding Api.set_default_read_only Api.get_db
  closing-Stays q c = ground (arith, c)

  abbrev Stays : M (Unit {0}) → Type 0
  Stays m = (q : Postgresql) → Shut q → Shut (m q).1

  calm-Stays : (m : M (Unit {0})) → Calm m → Stays m
  calm-Stays m k q c = ap (λ (f : Frame). f.0) (k q) ∙ c

  rewind_first-Stays : (r : PrimaryRef) → Stays (rewind_first h r)
  rewind_first-Stays r q c =
      ground (arith, calm-Stays (maybe_pg_rewind h r) (maybe_pg_rewind-Calm h r) q c, c)

  follow-Stays : (r : PrimaryRef) → Stays (follow h r)
  follow-Stays r q =
      calm-Stays (apply_streaming_replica h r r.member_id (uses_slots q.conf))
        (apply_streaming_replica-Calm h r r.member_id (uses_slots q.conf)) q

  rest-Stays : (r : PrimaryRef) → Stays (rest h r)
  rest-Stays r q c = elim (Bool-cases (is_empty r.host && is_empty r.member_id)) [
    | inl e ↦ rw e c
    | inr e ↦ rw e (
        after-Stays ((rewind_first h r >> Api.set_default_read_only h true) q) (λ _. follow h r)
          (λ _. follow-Stays r)
          (after-Stays (rewind_first h r q) (λ _. Api.set_default_read_only h true)
            (λ _. closing-Stays) (rewind_first-Stays r q c)))
  ]

  replicated : (r : PrimaryRef) → Stays (apply_replica h r)
  unfolding apply_replica
  replicated r p c = after-Stays (check_ctx h p) (λ _. rest h r) (λ _. rest-Stays r) c

  bootstrapped : (p : Postgresql) → (setup_bootstrap h p).0 ≡ ok tt → Shut (setup_bootstrap h p).1
  unfolding setup_bootstrap
  bootstrapped p =
      after-ends Shut tt (Api.wait_ready h 61 p) (λ _. Api.set_default_read_only h true)
        (λ _ _. read_only-Shut h (Api.wait_ready h 61 p).1)

  module _ (o : Outside Postgresql)
      (led : (p : Postgresql) → (o.is_leader p).1.writable ≡ p.writable)
      (viewed : (p : Postgresql) → (o.cluster_view p).1.writable ≡ p.writable)
      (quiet : (c : String) (p : Postgresql) → (o.run_command c p).1.writable ≡ p.writable) where
    -- A server that is never in recovery, and so a primary, is not promoted by the cycles that
    -- follow a SetupBootstrap that succeeds, however many they are and whoever leads: no start
    -- hook and no ApplyPrimary is run, and the layer's flag stays off. The coordinator and the
    -- hook commands do not set the flag.
    pub bootstrapped_primary_stays_closed :
        (n : ℕ) (p : Postgresql) (rec : Reconciler)
        → (setup_bootstrap h p).0 ≡ ok tt
        → (promotions
              (cycles o
                (postgresql_driver h)
                n
                (record { rec = rec; env = (setup_bootstrap h p).1; trace = [] })).trace
            ≡ 0)
          × ((cycles o
                (postgresql_driver h)
                n
                (record { rec = rec; env = (setup_bootstrap h p).1; trace = [] })).env.writable
              ≡ false)
    unfolding postgresql_driver
    bootstrapped_primary_stays_closed n p rec e =
        cycles-quiet Shut o (postgresql_driver h) (λ c q k. quiet c q ∙ k) refused
          (λ q k. led q ∙ k) (λ q k. viewed q ∙ k) shown demoted (λ q k. k) replicated n
          (record { rec = rec; env = (setup_bootstrap h p).1; trace = [] }) (bootstrapped p e)
