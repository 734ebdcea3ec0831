-- ===== src/Reconcile/Hooks.antt =====
-- internal/ha/primary_hook.go.
pub mod Exposure
use neoha.Common.{Bool, true, false, not, ◌&&◌, String, none, some, if◌then◌else◌, str_eq}
use neoha.Common.Result.{err}
use neoha.Common.Text.{trim_space, is_empty}
use neoha.Reconcile.{
  PrimaryHooks, Outside, M, Command, start_hook, stop_hook, issue, done, set_hooks, ◌>>◌,
}

-- `hookConfigured`.
unfoldable pub hook_configured : String → Bool
hook_configured c = not (is_empty (trim_space c)) && not (str_eq (trim_space c) "nop")

module _ {D : Type 0} (o : Outside D) where
  -- `run`.
  run_hook : Command → String → M D (Unit {0})
  run_hook c command w =
      if hook_configured command then issue c (o.run_command command) w else done w

  -- Every entry point returns the error of its context first.
  abbrev checked : M D (Unit {0}) → M D (Unit {0})
  checked m w = elim (o.ctx_err w.env) [ some e ↦ (err e, w) | none ↦ m w ]

  -- What follows a hook that has run without an error.
  abbrev then_active : Bool → PrimaryHooks → M D (Unit {0}) → M D (Unit {0})
  then_active b h m = m >> λ w. done (set_hooks (record h { active = b }) w)

  -- `EnsurePrimary`.
  unfoldable pub ensure_primary : PrimaryHooks → M D (Unit {0})
  unfolding run_hook
  ensure_primary h w =
      if not (hook_configured h.on_start)
      then done w
      else checked
          (λ w.
            if h.active
            then done w
            else if h.skip_start_once
            then done (set_hooks (record h { skip_start_once = false; active = true }) w)
            else then_active true h (run_hook start_hook h.on_start) w)
          w

  -- `EnsureReplica`.
  unfoldable pub ensure_replica : PrimaryHooks → M D (Unit {0})
  unfolding run_hook
  ensure_replica h = checked λ w.
      if not h.active
      then (if hook_configured h.on_stop then run_hook stop_hook h.on_stop w else done w)
      else then_active false h (run_hook stop_hook h.on_stop) w

  -- `RunStopIfConfigured`.
  unfoldable pub run_stop_if_configured : PrimaryHooks → M D (Unit {0})
  unfolding run_hook
  run_stop_if_configured h = checked (run_hook stop_hook h.on_stop)

-- `SetSkipPrimaryStartOnce`.
unfoldable pub set_skip_primary_start_once : PrimaryHooks → PrimaryHooks
set_skip_primary_start_once h = record h { skip_start_once = true }
