-- ===== src/Postgresql/Frame.antt =====
-- What the operations of internal/database/postgresql leave alone: the flag that the database is
-- open, and the configuration.
pub mod Follow
pub mod Rewinding
use neoha.Common.{
  Bool, true, false, ℕ, zero, suc, String, ◌≡◌, refl, ◌∙◌, ap, Bool-cases, Option-cases, inl, inr,
  arith, none, some, Option, List, if◌then◌else◌,
}
use neoha.Common.Result.{Result, ok, err, Error}
use neoha.Common.Text.{is_empty, contains}
use neoha.Driver.{PrimaryRef}
use neoha.Postgresql.{
  Host, Postgresql, PostgresqlConfig, M, Link, after, ◌>>=◌, ◌>>◌, return, attempt, check_ctx,
  close, run, ping_at, open_at, open_local, run_program, stat, create_file, get_timeline,
}
use neoha.Postgresql.Api
use neoha.Postgresql.Process.{
  pg_data_dir, pg_ctl_stop, pg_ctl_start, run_pg_rewind, ensure_standby_signal,
}
use neoha.Postgresql.Conninfo.{dsn}

-- The flag and the configuration as one value.
abbrev pub Frame : Type 0
Frame = Bool × PostgresqlConfig

abbrev pub frame : Postgresql → Frame
frame p = (p.writable, p.conf)

abbrev pub Calm : {A : Type 0} → M A → Type 0
Calm m = (p : Postgresql) → frame (m p).1 ≡ frame p

pub after-frame :
    {A B : Type 0} (x : Result A × Postgresql) (f : A → M B)
    → ((a : A) → Calm (f a))
    → frame (after x f).1 ≡ frame x.1
after-frame (ok a, p) f c = c a p
after-frame (err e, p) f c = refl

pub chain-Calm :
    {A B : Type 0} (m : M A) (f : A → M B) → Calm m → ((a : A) → Calm (f a)) → Calm (m >>= f)
chain-Calm m f c d p = after-frame (m p) f d ∙ c p

-- What holds of all results of the second step that succeed holds of the chain's.
pub after-ends :
    {A B : Type 0} (P : Postgresql → Type 0) (b : B) (x : Result A × Postgresql) (f : A → M B)
    → ((a : A) → x.0 ≡ ok a → (f a x.1).0 ≡ ok b → P (f a x.1).1)
    → (after x f).0 ≡ ok b
    → P (after x f).1
after-ends P b (ok a, p) f h k = h a refl k
after-ends P b (err e, p) f h k = absurd (cc)

module _ (h : Host) where
  pub get_db-Calm : Calm (Api.get_db h)
  unfolding Api.get_db
  get_db-Calm p = ground arith

  pub with_db-Calm : {A : Type 0} (m : M A) → Calm m → Calm (Api.get_db h >> m)
  with_db-Calm m c = chain-Calm (Api.get_db h) (λ _. m) get_db-Calm (λ _. c)

  pub ping_db-Calm : Calm (Api.ping_db h)
  unfolding Api.ping_db
  ping_db-Calm = with_db-Calm (ping_at h Link.local) (λ p. refl)

  pub is_in_recovery-Calm : Calm (Api.is_in_recovery h)
  unfolding Api.is_in_recovery
  is_in_recovery-Calm = with_db-Calm _ (λ p. refl)

  pub wait_ready-Calm : (n : ℕ) → Calm (Api.wait_ready h n)
  unfolding Api.wait_ready Api.set_alive
  wait_ready-Calm zero p = refl
  wait_ready-Calm (suc n) p = ground (arith, ping_db-Calm p, wait_ready-Calm n (Api.ping_db h p).1)

  module _ (c : PostgresqlConfig) where
    pub pg_ctl_stop-Calm : Calm (pg_ctl_stop h c)
    unfolding pg_ctl_stop pg_data_dir
    pg_ctl_stop-Calm p = ground arith

    pub pg_ctl_start-Calm : Calm (pg_ctl_start h c)
    unfolding pg_ctl_start pg_data_dir
    pg_ctl_start-Calm p = ground arith

    pub run_pg_rewind-Calm : (r : PrimaryRef) → Calm (run_pg_rewind h c r)
    unfolding run_pg_rewind pg_data_dir
    run_pg_rewind-Calm r p = ground arith

  pub ensure_standby_signal-Calm : (dir : String) → Calm (ensure_standby_signal h dir)
  unfolding ensure_standby_signal
  ensure_standby_signal-Calm dir p = ground arith
