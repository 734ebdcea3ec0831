-- ===== src/Postgresql/Programs.antt =====
-- internal/database/postgresql/rewind.go: which programs of PostgreSQL are run, and in which order.
pub mod Order
use neoha.Common.{
  Bool, true, false, ℕ, zero, suc, String, List, [], ◌∷◌, ◌≡◌, refl, sym, ◌∙◌, ◌⊎◌, inl, inr,
  Bool-cases, arith, if◌then◌else◌,
}
use neoha.Common.Result.{Result, ok, err, is_ok}
use neoha.Common.Text.{is_empty}
use neoha.Driver.{PrimaryRef}
use neoha.Postgresql.{
  Host, Postgresql, PostgresqlConfig, Event, Link, M, after, ◌>>=◌, ◌>>◌, return, attempt, close,
  stat,
}
use neoha.Postgresql.Api
use neoha.Postgresql.Process.{
  pg_bin, pg_data_dir, pg_ctl_stop, pg_ctl_start, run_pg_rewind, ensure_standby_signal, stop_args,
  start_args, rewind_args, start_opts, config_file,
}
use neoha.Postgresql.Rewind.{
  rewind_stopped, needs_pg_rewind, maybe_pg_rewind, rewind_if, control_timeline, primary_timeline,
  behind, once_reached,
}

-- A program that was run: the path of its binary, and its arguments.
abbrev pub Launched : Type 0
Launched = String × List String

-- The programs that were run, newest first.
unfoldable pub programs : List Event → List Launched
programs [] = []
programs (Event.program name args b ∷ es) = (name, args) ∷ programs es
programs (Event.opened l b ∷ es) = programs es
programs (Event.pinged l b ∷ es) = programs es
programs (Event.recovery r ∷ es) = programs es
programs (Event.queried l q ∷ es) = programs es
programs (Event.ran l q args b ∷ es) = programs es
programs (Event.looked_up path ∷ es) = programs es
programs (Event.created path b ∷ es) = programs es

-- What was run, with the configuration and the flag that the database is open.
abbrev pub Trace : Type 0
Trace = List Launched × PostgresqlConfig × Bool

abbrev pub trace : Postgresql → Trace
trace p = (programs p.log, p.conf, p.writable)

abbrev pub Quiet : {A : Type 0} → M A → Type 0
Quiet m = (p : Postgresql) → trace (m p).1 ≡ trace p

module _ (h : Host) where
  ping_db-Quiet : Quiet (Api.ping_db h)
  unfolding Api.ping_db Api.get_db programs
  ping_db-Quiet p = ground arith

  pub wait_ready-Quiet : (n : ℕ) → Quiet (Api.wait_ready h n)
  unfolding Api.wait_ready Api.set_alive
  wait_ready-Quiet zero p = refl
  wait_ready-Quiet (suc n) p =
      ground (arith, ping_db-Quiet p, wait_ready-Quiet n (Api.ping_db h p).1)

  pub signal-Quiet : (dir : String) → Quiet (ensure_standby_signal h dir)
  unfolding ensure_standby_signal programs
  signal-Quiet dir p = ground arith

  module _ (c : PostgresqlConfig) (named : is_empty c.data_dir ≡ false) where
    pub stop_programs :
        (p : Postgresql)
        → programs (pg_ctl_stop h c p).1.log
          ≡ (pg_bin h c "pg_ctl", stop_args h c.data_dir) ∷ programs p.log
    unfolding pg_ctl_stop pg_data_dir programs
    stop_programs p = ground (arith, named)

    pub rewind_programs :
        (r : PrimaryRef) (p : Postgresql)
        → programs (run_pg_rewind h c r p).1.log
          ≡ (pg_bin h c "pg_rewind", rewind_args h c r c.data_dir) ∷ programs p.log
    unfolding run_pg_rewind pg_data_dir programs
    rewind_programs r p = ground (arith, named)

    -- The options of the start.
    pub start_programs :
        (p : Postgresql)
        → (path : String) × (opts : String) × (programs (pg_ctl_start h c p).1.log
            ≡ (pg_bin h c "pg_ctl", start_args h c.data_dir path opts) ∷ programs p.log)
    unfolding pg_ctl_start pg_data_dir programs
    start_programs p = (
      h.join_path c.data_dir "pg_ctl-rewind.log",
      start_opts h c (stat h (config_file h c) p).0,
      ground (arith, named),
    )

  after-Quiet :
      {A B : Type 0} (x : Result A × Postgresql) (f : A → M B)
      → ((a : A) → Quiet (f a))
      → trace (after x f).1 ≡ trace x.1
  after-Quiet (ok a, p) f c = c a p
  after-Quiet (err e, p) f c = refl

  recovery-Quiet : Quiet (Api.is_in_recovery h)
  unfolding Api.is_in_recovery Api.get_db programs
  recovery-Quiet p = ground arith

  control-Quiet : Quiet (control_timeline h)
  unfolding control_timeline Api.get_db programs
  control-Quiet p = ground arith

  primary-Quiet : (r : PrimaryRef) → Quiet (primary_timeline h r)
  unfolding primary_timeline programs
  primary-Quiet r p = ground arith

  behind-Quiet : (r : PrimaryRef) (b : Bool) → Quiet (behind h r b)
  behind-Quiet r true p =
      after-Quiet (control_timeline h p) _
        (λ mine q. after-Quiet (primary_timeline h r q) _ (λ _ _. refl) ∙ primary-Quiet r q)
      ∙ control-Quiet p
  behind-Quiet r false p = refl

  reached-Quiet : (r : PrimaryRef) (x : Result (Unit {0})) → Quiet (once_reached h r x)
  reached-Quiet r (err e) p = refl
  reached-Quiet r (ok u) p =
      after-Quiet (Api.is_in_recovery h p) (behind h r) (behind-Quiet r) ∙ recovery-Quiet p

  pub needs-Quiet : (r : PrimaryRef) → Quiet (needs_pg_rewind h r)
  unfolding needs_pg_rewind
  needs-Quiet r p = reached-Quiet r (Api.ping_db h p).0 (Api.ping_db h p).1 ∙ ping_db-Quiet p
