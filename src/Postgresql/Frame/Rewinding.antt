-- ===== src/Postgresql/Frame/Rewinding.antt =====
-- Being rewound leaves the flag and the configuration alone.
use neoha.Common.{Bool, true, false, String, ◌≡◌, refl, ap, ◌∙◌, if◌then◌else◌}
use neoha.Common.Result.{Result, ok, err}
use neoha.Common.Text.{is_empty}
use neoha.Driver.{PrimaryRef}
use neoha.Postgresql.{Host, Postgresql, after, ◌>>=◌, attempt, close, stat}
use neoha.Postgresql.Api
use neoha.Postgresql.Process.{pg_ctl_stop, pg_ctl_start, run_pg_rewind, ensure_standby_signal}
use neoha.Postgresql.Programs.{needs-Quiet, Trace}
use neoha.Postgresql.Rewind.{
  rewind_stopped, needs_pg_rewind, maybe_pg_rewind, rewind_if, initialized,
}
use neoha.Postgresql.Frame.{
  Calm, Frame, frame, chain-Calm, after-frame, wait_ready-Calm, pg_ctl_stop-Calm, pg_ctl_start-Calm,
  run_pg_rewind-Calm, ensure_standby_signal-Calm,
}
use neoha.Postgresql.Frame.Follow.{kept, then_kept, close-Calm}

module _ (h : Host) (r : PrimaryRef) where
  needs-Calm : Calm (needs_pg_rewind h r)
  needs-Calm p = ap (λ (t : Trace). let f : Frame = (t.2, t.1) in f) (needs-Quiet h r p)

  stopped-Calm : Calm (rewind_stopped h r)
  unfolding rewind_stopped
  stopped-Calm p =
      let c = p.conf in
      let down =
        then_kept (kept close close-Calm) (kept (pg_ctl_stop h c) (pg_ctl_stop-Calm h c)) in
      let rewound = then_kept down (kept (run_pg_rewind h c r) (run_pg_rewind-Calm h c r)) in
      let signal = ensure_standby_signal h c.data_dir in
      let marked = then_kept rewound (kept signal (ensure_standby_signal-Calm h c.data_dir)) in
      let up = then_kept marked (kept (pg_ctl_start h c) (pg_ctl_start-Calm h c)) in
      (then_kept up (kept (Api.wait_ready h 121) (wait_ready-Calm h 121))).calm p

  initialized-Calm : (dir : String) (x : Result (Unit {0})) → Calm (initialized h dir x)
  initialized-Calm dir (ok u) p = refl
  initialized-Calm dir (err e) p = refl

  chosen :
      (b : Bool) (x y : Result (Unit {0}) × Postgresql) (f : Frame)
      → frame x.1 ≡ f
      → frame y.1 ≡ f
      → frame (if b then x else y).1 ≡ f
  chosen true x y f e k = e
  chosen false x y f e k = k

  rewind_if-Calm : (b : Bool) → Calm (rewind_if h r b)
  rewind_if-Calm false p = refl
  rewind_if-Calm true p =
      let dir = p.conf.data_dir in
      let path = h.join_path dir "PG_VERSION" in
      let x = (attempt (stat h path) >>= initialized h dir) p in
      let first = initialized-Calm dir (stat h path p).0 (stat h path p).1 in
      chosen (is_empty dir) _ (after x (λ _. rewind_stopped h r)) (frame p) refl
        (after-frame x (λ _. rewind_stopped h r) (λ _. stopped-Calm) ∙ first)

  pub maybe_pg_rewind-Calm : Calm (maybe_pg_rewind h r)
  unfolding maybe_pg_rewind
  maybe_pg_rewind-Calm p =
      chosen p.conf.use_pg_rewind (after (needs_pg_rewind h r p) (rewind_if h r)) (ok tt, p)
        (frame p) (chain-Calm (needs_pg_rewind h r) (rewind_if h r) needs-Calm rewind_if-Calm p)
        refl
