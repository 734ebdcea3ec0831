-- ===== src/Postgresql/Programs/Order.antt =====
-- internal/database/postgresql/rewind.go: pg_rewind runs on a server that was stopped, and the
-- server is started behind it.
use neoha.Common.{
  Bool, true, false, String, List, ◌∷◌, ◌≡◌, refl, sym, ap, ◌∙◌, subst, ◌⊎◌, inl, inr, Bool-cases,
  if◌then◌else◌,
}
use neoha.Common.Result.{Result, ok, err, is_ok}
use neoha.Common.Text.{is_empty}
use neoha.Driver.{PrimaryRef}
use neoha.Postgresql.{Host, Postgresql, PostgresqlConfig, M, after, ◌>>◌, close, stat}
use neoha.Postgresql.Api
use neoha.Postgresql.Process.{
  pg_bin, pg_ctl_stop, pg_ctl_start, run_pg_rewind, ensure_standby_signal, stop_args, start_args,
  rewind_args,
}
use neoha.Postgresql.Rewind.{
  rewind_stopped, needs_pg_rewind, maybe_pg_rewind, rewind_if, initialized,
}
use neoha.Postgresql.Programs.{
  Launched, programs, wait_ready-Quiet, signal-Quiet, needs-Quiet, stop_programs, rewind_programs,
  start_programs, Trace, trace,
}

abbrev Runs : Type 0
Runs = List Launched

module _ (h : Host) (ref : PrimaryRef) (c : PostgresqlConfig) where
  abbrev pub stopped : Runs → Runs
  stopped old = (pg_bin h c "pg_ctl", stop_args h c.data_dir) ∷ old

  abbrev pub rewound : Runs → Runs
  rewound old = (pg_bin h c "pg_rewind", rewind_args h c ref c.data_dir) ∷ stopped old

  abbrev pub restarted : String → String → Runs → Runs
  restarted path opts old = (pg_bin h c "pg_ctl", start_args h c.data_dir path opts) ∷ rewound old

  -- What was run, and whether the call may then be a success: nothing; pg_ctl stop alone, or with
  -- pg_rewind behind it, in a failure; or both and pg_ctl start.
  abbrev pub Order : Runs → Runs → Bool → Type 0
  Order old new good =
      (new ≡ old)
      ⊎ ((new ≡ stopped old) × (good ≡ false))
      ⊎ ((new ≡ rewound old) × (good ≡ false))
      ⊎ ((path : String) × (opts : String) × (new ≡ restarted path opts old))

  module _ (old : Runs) where
    -- A part of the sequence behind which `l` was run, or which has ended it.
    abbrev Stage : Runs → Result (Unit {0}) × Postgresql → Type 0
    Stage l y =
        ((y.0 ≡ ok tt) × (programs y.1.log ≡ l))
        ⊎ ((is_ok y.0 ≡ false) × Order old (programs y.1.log) false)

    settled :
        (l : Runs) (y : Result (Unit {0}) × Postgresql)
        → programs y.1.log ≡ l
        → Order old l false
        → Stage l y
    settled l (ok tt, p) e o = inl (refl, e)
    settled l (err x, p) e o = inr (refl, subst (λ new. Order old new false) (sym e) o)

    -- The next step runs `l'`, and a failure of it is an outcome.
    next-Stage :
        (l l' : Runs) (x : Result (Unit {0}) × Postgresql) (f : M (Unit {0}))
        → Stage l x
        → (programs x.1.log ≡ l → programs (f x.1).1.log ≡ l')
        → Order old l' false
        → Stage l' (after x (λ _. f))
    next-Stage l l' (ok u, p) f (inl (_, e)) runs ends = settled l' (f p) (runs e) ends
    next-Stage l l' (ok u, p) f (inr (bad, _)) runs ends = absurd (cc)
    next-Stage l l' (err x, p) f (inl (good, _)) runs ends = absurd (cc)
    next-Stage l l' (err x, p) f (inr (bad, o)) runs ends = inr (refl, o)

    -- Behind the start nothing more is run.
    finished :
        (path opts : String) (y : Result (Unit {0}) × Postgresql)
        → Stage (restarted path opts old) y
        → Order old (programs y.1.log) (is_ok y.0)
    finished path opts (ok tt, p) (inl (_, e)) = inr (inr (inr (path, opts, e)))
    finished path opts (ok tt, p) (inr (bad, _)) = absurd (cc)
    finished path opts (err x, p) (inl (good, _)) = absurd (cc)
    finished path opts (err x, p) (inr (_, o)) = o

  -- The steps of the stopped part, from a state in which `old` was run.
  module _ (named : is_empty c.data_dir ≡ false) where
    stopping :
        (p : Postgresql)
        → Stage (programs p.log) (stopped (programs p.log)) (pg_ctl_stop h c (close p).1)
    unfolding close
    stopping p =
        settled (programs p.log) (stopped (programs p.log)) (pg_ctl_stop h c (close p).1)
          (stop_programs h c named (close p).1) (inr (inl (refl, refl)))

    sequence :
        (p : Postgresql)
        → Order
            (programs p.log)
            (programs
              ((close
                  >> pg_ctl_stop h c
                  >> run_pg_rewind h c ref
                  >> ensure_standby_signal h c.data_dir
                  >> pg_ctl_start h c
                  >> Api.wait_ready h 121)
                p).1.log)
            (is_ok
              ((close
                  >> pg_ctl_stop h c
                  >> run_pg_rewind h c ref
                  >> ensure_standby_signal h c.data_dir
                  >> pg_ctl_start h c
                  >> Api.wait_ready h 121)
                p).0)
    unfolding close
    sequence p =
        let old = programs p.log in
        let x1 = (close >> pg_ctl_stop h c) p in
        let x2 = (close >> pg_ctl_stop h c >> run_pg_rewind h c ref) p in
        let x3 = after x2 (λ _. ensure_standby_signal h c.data_dir) in
        let x4 = after x3 (λ _. pg_ctl_start h c) in
        let x5 = after x4 (λ _. Api.wait_ready h 121) in
        let (path, opts, started) = start_programs h c named x3.1 in
        let s2 =
          next-Stage old (stopped old) (rewound old) x1 (run_pg_rewind h c ref) (stopping p)
            (λ e.
              rewind_programs h c named ref x1.1
              ∙ ap (λ l. (pg_bin h c "pg_rewind", rewind_args h c ref c.data_dir) ∷ l) e)
            (inr (inr (inl (refl, refl)))) in
        let s3 =
          next-Stage old (rewound old) (rewound old) x2 (ensure_standby_signal h c.data_dir) s2
            (λ e. ap (λ (t : Trace). t.0) (signal-Quiet h c.data_dir x2.1) ∙ e)
            (inr (inr (inl (refl, refl)))) in
        let s4 =
          next-Stage old (rewound old) (restarted path opts old) x3 (pg_ctl_start h c) s3
            (λ e.
              started ∙ ap (λ l. (pg_bin h c "pg_ctl", start_args h c.data_dir path opts) ∷ l) e)
            (inr (inr (inr (path, opts, refl)))) in
        let s5 =
          next-Stage old (restarted path opts old) (restarted path opts old) x4
            (Api.wait_ready h 121) s4
            (λ e. ap (λ (t : Trace). t.0) (wait_ready-Quiet h 121 x4.1) ∙ e)
            (inr (inr (inr (path, opts, refl)))) in
        finished old path opts x5 s5

module _ (h : Host) (ref : PrimaryRef) where
  abbrev Ends : Trace → Result (Unit {0}) × Postgresql → Type 0
  Ends t y = Order h ref t.1 t.0 (programs y.1.log) (is_ok y.0)

  checked :
      (x : Result (Unit {0})) (p : Postgresql)
      → is_empty p.conf.data_dir ≡ false
      → Ends (trace p) ((initialized h p.conf.data_dir x >> rewind_stopped h ref) p)
  unfolding rewind_stopped
  checked (ok u) p named = sequence h ref p.conf named p
  checked (err e) p named = inl refl

  decided : (b : Bool) (p : Postgresql) → Ends (trace p) (rewind_if h ref b p)
  unfolding programs
  decided false p = inl refl
  decided true p = elim (Bool-cases (is_empty p.conf.data_dir)) [
    | inl e ↦ rw e (inl refl)
    | inr e ↦
        let path = h.join_path p.conf.data_dir "PG_VERSION" in
        rw e (checked (stat h path p).0 (stat h path p).1 e)
  ]

  asked :
      (t : Trace) (x : Result Bool × Postgresql)
      → trace x.1 ≡ t
      → Ends t (after x (rewind_if h ref))
  asked t (ok b, p) e = subst (λ u. Ends u (rewind_if h ref b p)) e (decided b p)
  asked t (err x, p) e = inl (ap (λ (u : Trace). u.0) e)

  chosen :
      (t : Trace) (b : Bool) (x y : Result (Unit {0}) × Postgresql)
      → Ends t x
      → Ends t y
      → Ends t (if b then x else y)
  chosen t true x y e f = e
  chosen t false x y e f = f

  -- MaybePgRewind runs nothing; or pg_ctl stop alone, or pg_rewind behind it, and fails; or
  -- pg_ctl stop, pg_rewind and pg_ctl start in this order, each by its own binary (of the
  -- configured directory, or as it is found) and with its arguments: whatever the server and the
  -- programs answer.
  pub maybe_pg_rewind-Order :
      (p : Postgresql)
      → Order h ref p.conf
          (programs p.log)
          (programs (maybe_pg_rewind h ref p).1.log)
          (is_ok (maybe_pg_rewind h ref p).0)
  unfolding maybe_pg_rewind
  maybe_pg_rewind-Order p =
      chosen (trace p) p.conf.use_pg_rewind (after (needs_pg_rewind h ref p) (rewind_if h ref))
        (ok tt, p) (asked (trace p) (needs_pg_rewind h ref p) (needs-Quiet h ref p)) (inl refl)
