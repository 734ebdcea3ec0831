-- ===== src/Postgresql/Rewind.antt =====
-- internal/database/postgresql/rewind.go: a server whose history has left that of the primary is
-- stopped, rewound and started again before it follows.
use neoha.Common.{Bool, true, false, not, ℕ, String, ◌==◌, if◌then◌else◌}
use neoha.Common.Result.{Result, ok, err}
use neoha.Common.Text.{is_empty}
use neoha.Driver.{PrimaryRef}
use neoha.Postgresql.{
  Host, Link, M, ◌>>=◌, ◌>>◌, return, fail, attempt, open_at, ping_at, get_timeline, stat, close,
}
use neoha.Postgresql.Api.{get_db, ping_db, wait_ready, is_in_recovery}
use neoha.Postgresql.Conninfo.{build_primary_conninfo}
use neoha.Postgresql.Process.{
  pg_ctl_stop, pg_ctl_start, run_pg_rewind, ensure_standby_signal, message,
}
use Prim.Native.String.{◌++◌}

module _ (h : Host) where
  -- `ControlTimeline` and `PrimaryTimeline`.
  unfoldable pub control_timeline : M ℕ
  control_timeline = get_db h >> get_timeline h Link.local

  unfoldable pub primary_timeline : PrimaryRef → M ℕ
  primary_timeline ref p =
      let l = Link.remote (build_primary_conninfo p.conf ref) in
      (open_at h (build_primary_conninfo p.conf ref) >> ping_at h l >> get_timeline h l) p

  abbrev pub compare_timelines : PrimaryRef → M Bool
  compare_timelines ref =
      control_timeline >>= λ mine. primary_timeline ref >>= λ theirs. return (not (mine == theirs))

  abbrev pub behind : PrimaryRef → Bool → M Bool
  behind ref true = compare_timelines ref
  behind ref false = return true

  abbrev pub once_reached : PrimaryRef → Result (Unit {0}) → M Bool
  once_reached ref (err e) = return true
  once_reached ref (ok u) = is_in_recovery h >>= behind ref

  -- `NeedsPgRewind`: a server that does not answer, or that is in no recovery, is rewound too.
  unfoldable pub needs_pg_rewind : PrimaryRef → M Bool
  needs_pg_rewind ref = attempt (ping_db h) >>= once_reached ref

  abbrev pub initialized : String → Result (Unit {0}) → M (Unit {0})
  initialized dir (ok u) = return tt
  initialized dir (err e) =
      fail ("postgresql: pg_rewind requires initialized data_dir: " ++ message e)

  -- The part of `MaybePgRewind` that stops the server. In its 120 seconds there are at most 121
  -- pings.
  unfoldable pub rewind_stopped : PrimaryRef → M (Unit {0})
  rewind_stopped ref p =
      let c = p.conf in
      (close
          >> pg_ctl_stop h c
          >> run_pg_rewind h c ref
          >> ensure_standby_signal h c.data_dir
          >> pg_ctl_start h c
          >> wait_ready h 121)
        p

  abbrev pub rewind_if : PrimaryRef → Bool → M (Unit {0})
  rewind_if ref false p = (ok tt, p)
  rewind_if ref true p =
      let dir = p.conf.data_dir in
      if is_empty dir
      then fail "postgresql: use_pg_rewind set but data_dir is empty" p
      else (attempt (stat h (h.join_path dir "PG_VERSION"))
            >>= initialized dir
            >> rewind_stopped ref)
          p

  -- `MaybePgRewind`.
  unfoldable pub maybe_pg_rewind : PrimaryRef → M (Unit {0})
  maybe_pg_rewind ref p =
      if p.conf.use_pg_rewind then (needs_pg_rewind ref >>= rewind_if ref) p else (ok tt, p)
