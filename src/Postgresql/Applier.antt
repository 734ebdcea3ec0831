-- ===== src/Postgresql/Applier.antt =====
-- internal/database/postgresql/driver.go: the PostgreSQL layer as the `Driver` of the HA layer.
use neoha.Common.{Bool, true, false, not, ◌&&◌, ◌||◌, ltb, String, if◌then◌else◌}
use neoha.Common.Result.{Result, ok, err}
use neoha.Common.Text.{ℤ, pos, negsuc, is_positive, is_empty}
use neoha.Driver.{Driver, Health, Role, PrimaryRef}
use neoha.Postgresql.{
  Host, Postgresql, PostgresqlConfig, M, ◌>>=◌, ◌>>◌, return, fail, attempt, check_ctx, close,
}
use neoha.Postgresql.Api
use neoha.Postgresql.Process.{message}
use neoha.Postgresql.Replica.{apply_streaming_replica}
use neoha.Postgresql.Rewind.{maybe_pg_rewind}

abbrev pub lt : ℤ → ℤ → Bool
lt (pos a) (pos b) = ltb a b
lt (pos a) (negsuc b) = false
lt (negsuc a) (pos b) = true
lt (negsuc a) (negsuc b) = ltb b a

abbrev pub Answer : Type 0
Answer = Bool × String

abbrev pub replace_error : {A : Type 0} → String → M A → M A
replace_error t m p = let (r, p') = m p in elim r [ ok a ↦ (ok a, p') | err e ↦ fail t p' ]

abbrev pub as_answer : Result Answer × Postgresql → Answer × Postgresql
as_answer (ok a, p) = (a, p)
as_answer (err e, p) = ((false, message e), p)

-- `useSlots` of ApplyReplica.
unfoldable pub uses_slots : PostgresqlConfig → Bool
uses_slots c = c.use_slots || not (is_empty c.primary_slot_name)

abbrev role_of : Bool → Role
role_of true = Role.role_replica
role_of false = Role.role_primary

module _ (h : Host) where
  -- `SetupBootstrap`. In its sixty seconds there are at most 61 pings.
  unfoldable pub setup_bootstrap : M (Unit {0})
  setup_bootstrap = Api.wait_ready h 61 >> Api.set_default_read_only h true

  -- `Promotable` of a standby: a limit of 0 or less is none.
  unfoldable pub within_lag : M Answer
  within_lag p =
      let limit = p.conf.maximum_lag_on_failover in
      if is_positive limit
      then (Api.replication_lag_bytes h >>= λ lag.
            return (if lt limit lag then (false, "postgresql.lag.too.high") else (true, "")))
          p
      else (ok (true, ""), p)

  abbrev pub of_primary : M Answer
  of_primary p =
      (ok (if p.writable then (true, "") else (false, "postgresql.already.primary.readonly")), p)

  abbrev pub judge : Bool → M Answer
  judge true = within_lag
  judge false = of_primary

  -- `Promotable`, with its reason.
  unfoldable pub promotable : Postgresql → Answer × Postgresql
  promotable p = as_answer (
      (check_ctx h
          >> replace_error "postgresql.not.alive" (Api.ping_db h)
          >> Api.is_in_recovery h
          >>= judge)
        p)

  -- `ReplicationLagBytes`.
  unfoldable pub replication_lag_bytes : M ℤ
  replication_lag_bytes = check_ctx h >> Api.replication_lag_bytes h

  abbrev promote_if : Bool → M (Unit {0})
  promote_if true = Api.promote h
  promote_if false = Api.set_default_read_only h false

  -- `ApplyPrimary`.
  unfoldable pub apply_primary : M (Unit {0})
  apply_primary = check_ctx h >> Api.is_in_recovery h >>= promote_if

  abbrev pub rewind_first : PrimaryRef → M (Unit {0})
  rewind_first ref p = if p.conf.use_pg_rewind then maybe_pg_rewind h ref p else (ok tt, p)

  abbrev pub follow : PrimaryRef → M (Unit {0})
  follow ref p = apply_streaming_replica h ref ref.member_id (uses_slots p.conf) p

  -- `ApplyReplica`: the database is closed before it is given another source.
  unfoldable pub apply_replica : PrimaryRef → M (Unit {0})
  apply_replica ref =
      check_ctx h
      >> (if is_empty ref.host && is_empty ref.member_id
          then fail "postgresql.ApplyReplica: primary endpoint required"
          else (rewind_first ref >> Api.set_default_read_only h true >> follow ref))

  -- `Demote`.
  unfoldable pub demote : M (Unit {0})
  demote = check_ctx h >> Api.set_default_read_only h true

  abbrev unreachable : Health
  unreachable = record { alive = false; writable = false; role = Role.role_unknown }

  abbrev health : Bool → M Health
  health b p = (ok (record { alive = true; writable = p.writable && not b; role = role_of b }), p)

  abbrev report : Result (Unit {0}) → M Health
  report (err e) = return unreachable
  report (ok u) = Api.is_in_recovery h >>= health

  -- `Status`: a server that cannot be reached is no error.
  unfoldable pub status : M Health
  status = check_ctx h >> attempt (Api.ping_db h) >>= report

  -- `Stop`.
  unfoldable pub stop : M (Unit {0})
  stop = close

  -- The engine has no group replication, so nothing of its phases is asked.
  unfoldable pub postgresql_driver : Driver Postgresql
  postgresql_driver = record {
    promotable = promotable;
    status = status;
    apply_primary = apply_primary;
    apply_replica = apply_replica;
    demote = demote;
    is_mgr_mode = false;
    mgr_primary_phase1_done = return false;
    mgr_cluster_writable_ready = return false;
    apply_primary_mgr_phase2 = return tt;
    mgr_replica_joined = return false;
  }
