-- ===== src/Postgresql/Examples.antt =====
-- A replica on PostgreSQL beside a leader, a standby whose history has left that of the primary, and
-- a primary for which NeoHA is started.
use neoha.Common.{
  Bool, true, false, not, ◌&&◌, List, [], ◌∷◌, none, some, ◌≡◌, refl, String, Option, arith, ◌==◌,
  if◌then◌else◌,
}
use neoha.Common.Result.{ok, is_ok}
use neoha.Common.Text.{pos, is_positive}
use neoha.Driver.{PrimaryRef}
use neoha.Reconcile.{PrimaryHooks, Reconciler, Outside, World}
use neoha.Reconcile.Cycle.{run_once, cycles}
use neoha.Reconcile.Cycle.Safety.{promotions}
use neoha.Postgresql.{Host, Postgresql, PostgresqlConfig, Link}
use neoha.Postgresql.Api.{at_least_zero}
use neoha.Postgresql.Applier.{postgresql_driver, promotable, lt, setup_bootstrap}
use neoha.Postgresql.Contract.{serves}
use neoha.Postgresql.Engine.{postgresql_run_once_closes}
use neoha.Postgresql.Literals.{Reader, Arrives, push, settings_arrive}
use neoha.Postgresql.Programs.{programs}
use neoha.Postgresql.Programs.Order.{Order, maybe_pg_rewind-Order}
use neoha.Postgresql.Replica.{set_recovery_primary_conninfo, set_recovery_primary_slot_name}
use neoha.Postgresql.Restart.{bootstrapped_primary_stays_closed}
use neoha.Postgresql.Rewind.{maybe_pg_rewind}
use Prim.Native.Char.{Char, code}
use Prim.Native.String.{◌++◌}

-- A server in recovery or not, a primary with a later timeline, and programs that succeed.
abbrev host : Bool → Host
host b = record {
  ctx_err = λ es. none;
  open_link = λ es i. none;
  ping = λ es l. none;
  in_recovery = λ es. ok b;
  slot_exists = λ es i slot. ok true;
  timeline = λ es l. ok (elim l [ Link.local ↦ 1 | Link.remote i ↦ 2 ]);
  lag = λ es. ok (some (pos 70));
  exec = λ es l q args. none;
  run_program = λ es name args. (none, "");
  look_path = λ name. none;
  stat = λ es path. none;
  create_file = λ es path. none;
  read_file = λ es path. "";
  join_path = λ dir name. dir ++ "/" ++ name;
  scan_int = λ s. none;
}

abbrev conf : PostgresqlConfig
conf = record {
  connect_address = "10.0.0.1:5432";
  data_dir = "/pg/data";
  bin_dir = "";
  config_dir = "";
  auth = none;
  use_slots = false;
  primary_slot_name = "";
  maximum_lag_on_failover = pos 64;
  use_pg_rewind = true;
}

abbrev node : Bool → Postgresql
node b = record { conf = conf; connected = b; alive = true; writable = true; log = [] }

abbrev leader : PrimaryRef
leader = record { member_id = "10.0.0.2:8080"; host = "10.0.0.2"; port = pos 5432 }

abbrev outside : Bool → Outside Postgresql
outside leads = record {
  is_leader = λ p. (leads, p);
  cluster_view = λ p. (
    ok (record { leader_id = "10.0.0.2:8080"; leader_host = "10.0.0.2"; leader_port = pos 5432 }),
    p,
  );
  local_id = "10.0.0.1:8080";
  ctx_err = λ p. none;
  run_command = λ c p. (ok tt, p);
}

abbrev reconciler : Reconciler
reconciler = record {
  nofailover = false;
  hooks = none;
  apply_promote = true;
  defensive_stop_done = false;
  last_replica_primary = "";
  mysql_port = pos 0;
}

abbrev world : World Postgresql
world = record {
  rec = reconciler;
  env = record (node true) { conf = record conf { use_pg_rewind = false } };
  trace = [];
}

postgresql_run_once_closes_example :
    ((run_once (outside false) (postgresql_driver (host true)) world).1.env.writable
      && serves (run_once (outside false) (postgresql_driver (host true)) world).1.env.log)
    ≡ false
unfolding run_once neoha.Reconcile.Cycle.compute_desired neoha.Reconcile.Cycle.apply_desired
    postgresql_driver neoha.Reconcile.Cycle.apply_replica_if_needed
    neoha.Reconcile.Target.replica_target_key neoha.Reconcile.Target.enrich_primary_ref
    neoha.Common.Text.itoa neoha.Common.str_eq neoha.Postgresql.Applier.apply_replica
    neoha.Postgresql.Applier.status neoha.Postgresql.Api.ping_db neoha.Postgresql.Api.get_db
    neoha.Postgresql.Api.is_in_recovery neoha.Postgresql.Applier.demote
    neoha.Postgresql.Api.set_default_read_only neoha.Postgresql.Applier.uses_slots
    neoha.Postgresql.Replica.apply_streaming_replica neoha.Postgresql.Replica.reload_conf
    neoha.Postgresql.Replica.set_recovery_primary_conninfo
postgresql_run_once_closes_example =
    postgresql_run_once_closes (host true) (outside false) (λ c p. refl) world refl refl

-- A reader by clauses. The flag says that a quote was read whose meaning depends on what follows.
abbrev read_literal : Bool → String → Option (String × String)
read_literal false String.[] = none
read_literal true String.[] = some ("", "")
read_literal false (String.◌∷◌ c s) =
    let inside = push c (read_literal false s) in
    let ending = read_literal true s in if code c == 0x27 then ending else inside
read_literal true (String.◌∷◌ c s) =
    let inside = push c (read_literal false s) in
    if code c == 0x27 then inside else some ("", String.◌∷◌ c s)

read_literal-doubled :
    (c : Char) (s : String)
    → (code c == 0x27) ≡ true
    → read_literal false (String.◌∷◌ c (String.◌∷◌ c s)) ≡ push c (read_literal false s)
read_literal-doubled c s q = ground (arith, q)

read_literal-other :
    (c : Char) (s : String)
    → (code c == 0x27) ≡ false
    → read_literal false (String.◌∷◌ c s) ≡ push c (read_literal false s)
read_literal-other c s q = ground (arith, q)

abbrev reader : Reader
reader = record {
  read = read_literal false;
  read_last = refl;
  read_doubled = read_literal-doubled;
  read_other = read_literal-other;
}

settings_arrive_example :
    Arrives reader "primary_conninfo" "user=o'neil"
      (node true)
      (set_recovery_primary_conninfo (host true) "user=o'neil" (node true))
    × Arrives reader "primary_slot_name" "slot_a"
        (node true)
        (set_recovery_primary_slot_name (host true) "slot_a" (node true))
settings_arrive_example = settings_arrive reader (host true) (node true) "user=o'neil" "slot_a" refl

maybe_pg_rewind-Order_example :
    Order
      (host true)
      leader
      conf
      []
      (programs (maybe_pg_rewind (host true) leader (node true)).1.log)
      (is_ok (maybe_pg_rewind (host true) leader (node true)).0)
unfolding programs
maybe_pg_rewind-Order_example = maybe_pg_rewind-Order (host true) leader (node true)

bootstrapped_primary_stays_closed_example :
    (promotions
        (cycles (outside true) (postgresql_driver (host false)) 3 (record {
          rec = reconciler;
          env = (setup_bootstrap (host false) (node true)).1;
          trace = [];
        })).trace
      ≡ 0)
    × ((cycles (outside true) (postgresql_driver (host false)) 3 (record {
      rec = reconciler;
      env = (setup_bootstrap (host false) (node true)).1;
      trace = [];
    })).env.writable
        ≡ false)
unfolding setup_bootstrap neoha.Postgresql.Api.wait_ready neoha.Postgresql.Api.ping_db
    neoha.Postgresql.Api.get_db neoha.Postgresql.Api.set_alive
    neoha.Postgresql.Api.set_default_read_only
bootstrapped_primary_stays_closed_example =
    bootstrapped_primary_stays_closed (host false) (λ es. refl) (outside true) (λ p. refl)
      (λ p. refl) (λ c p. refl) 3 (node true) reconciler refl

-- The standby lags too far.
refused_example : (promotable (host true) (node true)).0 ≡ (false, "postgresql.lag.too.high")
unfolding promotable neoha.Postgresql.Api.ping_db neoha.Postgresql.Api.get_db
    neoha.Postgresql.Api.is_in_recovery neoha.Postgresql.Applier.within_lag
    neoha.Postgresql.Api.replication_lag_bytes
refused_example = refl
