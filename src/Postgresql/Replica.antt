-- ===== src/Postgresql/Replica.antt =====
-- internal/database/postgresql/replica.go: a server that follows a primary by streaming replication.
use Prim.Native.Char.{code}
use Prim.Native.String.{◌++◌}
use neoha.Common.{Bool, true, false, String, [], ◌∷◌, ◌==◌, if◌then◌else◌}
use neoha.Common.Result.{ok}
use neoha.Common.Text.{is_empty}
use neoha.Driver.{PrimaryRef}
use neoha.Postgresql.{
  Host, PostgresqlConfig, Event, Link, M, ◌>>=◌, ◌>>◌, return, fail, note, open_at, ping_at, run,
  close,
}
use neoha.Postgresql.Api.{get_db, wait_ready, is_in_recovery}
use neoha.Postgresql.Conninfo.{build_primary_conninfo}
use neoha.Postgresql.Process.{pg_ctl_stop, pg_ctl_start}

-- `primarySlotName`.
unfoldable pub primary_slot_name : PostgresqlConfig → String → String
primary_slot_name c member =
    if is_empty c.primary_slot_name
    then if is_empty member then "pgrepl" else member
    else c.primary_slot_name

-- `strings.ReplaceAll(s, "'", "''")`.
unfoldable pub double_quotes : String → String
double_quotes String.[] = ""
double_quotes (String.◌∷◌ c s) =
    let rest = double_quotes s in
    if code c == 0x27 then String.◌∷◌ c (String.◌∷◌ c rest) else String.◌∷◌ c rest

abbrev pub setting : String → String → String
setting name s = "ALTER SYSTEM SET " ++ name ++ " = '" ++ double_quotes s ++ "'"

module _ (h : Host) where
  abbrev ask_slot : String → String → M Bool
  ask_slot info slot p = (
    h.slot_exists p.log info slot,
    note (Event.queried (Link.remote info) "pg_replication_slots") p,
  )

  abbrev pub create_slot : String → String → Bool → M (Unit {0})
  create_slot info slot true = return tt
  create_slot info slot false =
      run h (Link.remote info) "SELECT pg_create_physical_replication_slot($1, true)" (slot ∷ [])

  -- `EnsurePhysicalSlotOnPrimary`.
  unfoldable pub ensure_physical_slot_on_primary : PrimaryRef → String → M (Unit {0})
  ensure_physical_slot_on_primary ref slot p =
      let info = build_primary_conninfo p.conf ref in
      if is_empty slot
      then (ok tt, p)
      else (open_at h info
            >> ping_at h (Link.remote info)
            >> ask_slot info slot
            >>= create_slot info slot)
          p

  -- `SetRecoveryPrimaryConninfo`.
  unfoldable pub set_recovery_primary_conninfo : String → M (Unit {0})
  set_recovery_primary_conninfo info =
      get_db h >> run h Link.local (setting "primary_conninfo" info) []

  -- `SetRecoveryPrimarySlotName`.
  unfoldable pub set_recovery_primary_slot_name : String → M (Unit {0})
  set_recovery_primary_slot_name slot =
      if is_empty slot
      then return tt
      else (get_db h >> run h Link.local (setting "primary_slot_name" slot) [])

  -- `ReloadConf`.
  unfoldable pub reload_conf : M (Unit {0})
  reload_conf = get_db h >> run h Link.local "SELECT pg_reload_conf()" []

  abbrev pub require_recovery : Bool → M (Unit {0})
  require_recovery true = return tt
  require_recovery false = fail "postgresql: instance not in recovery after restart"

  -- `restartIntoRecovery`. In its sixty seconds there are at most 61 pings.
  unfoldable pub restart_into_recovery : PostgresqlConfig → M (Unit {0})
  restart_into_recovery c =
      close
      >> pg_ctl_stop h c
      >> pg_ctl_start h c
      >> wait_ready h 61
      >> is_in_recovery h
      >>= require_recovery

  abbrev pub restart_unless : PostgresqlConfig → Bool → M (Unit {0})
  restart_unless c true = return tt
  restart_unless c false = restart_into_recovery c

  abbrev pub only_if : Bool → M (Unit {0}) → M (Unit {0})
  only_if true m = m
  only_if false m = return tt

  -- `ApplyStreamingReplica`.
  unfoldable pub apply_streaming_replica : PrimaryRef → String → Bool → M (Unit {0})
  apply_streaming_replica ref member use_slots p =
      let c = p.conf in
      let slot = primary_slot_name c member in
      (only_if use_slots (ensure_physical_slot_on_primary ref slot)
          >> set_recovery_primary_conninfo (build_primary_conninfo c ref)
          >> only_if use_slots (set_recovery_primary_slot_name slot)
          >> reload_conf
          >> is_in_recovery h
          >>= restart_unless c)
        p
