-- ===== src/Reconcile/Examples.antt =====
-- A replica on MySQL beside a leader, and a leader that is promoted.
use neoha.Common.{Bool, true, false, List, [], ◌∷◌, none, some, ◌≡◌, refl, ◌⊎◌}
use neoha.Common.Result.{ok}
use neoha.Common.Text.{pos}
use neoha.Raft.Wire.{ReplMode}
use neoha.Mysql.{Mysql}
use neoha.Mysql.Applier.{mysql_driver, writes}
use neoha.Mysql.Examples.{server, node}
use neoha.Reconcile.{PrimaryHooks, Reconciler, Outside, World}
use neoha.Reconcile.Hooks.{hook_configured}
use neoha.Reconcile.Hooks.Exposure.{Call, calls, replay, view, calls-refines}
use neoha.Reconcile.Cycle.{run_once}
use neoha.Reconcile.Cycle.Safety.{promotions, run_once_promotes}
use neoha.Reconcile.Engine.{mysql_run_once_closes}

abbrev outside : Bool → Outside Mysql
outside leads = record {
  is_leader = λ m. (leads, m);
  cluster_view =
      λ m. (ok (record { leader_id = "10.0.0.2:8080"; leader_host = ""; leader_port = pos 0 }), m);
  local_id = "10.0.0.1:8080";
  ctx_err = λ m. none;
  run_command = λ c m. (ok tt, m);
}

abbrev hooks : PrimaryHooks
hooks = record {
  on_start = "vip up";
  on_stop = "vip down";
  active = false;
  skip_start_once = false;
}

abbrev reconciler : Reconciler
reconciler = record {
  nofailover = false;
  hooks = some hooks;
  apply_promote = true;
  defensive_stop_done = false;
  last_replica_primary = "";
  mysql_port = pos 3306;
}

abbrev pub world : World Mysql
world = record { rec = reconciler; env = node ReplMode.semi_sync; trace = [] }

mysql_run_once_closes_example :
    writes (run_once (outside false) (mysql_driver server false) world).1.env.option ≡ false
unfolding neoha.Reconcile.Cycle.compute_desired run_once neoha.Reconcile.Cycle.apply_desired
    mysql_driver neoha.Mysql.Applier.status neoha.Reconcile.Hooks.run_stop_if_configured
    hook_configured neoha.Common.Text.trim_space neoha.Common.str_eq
    neoha.Reconcile.Hooks.ensure_replica neoha.Reconcile.Cycle.apply_replica_if_needed
    neoha.Reconcile.Target.replica_target_key neoha.Reconcile.Target.enrich_primary_ref
    neoha.Reconcile.Target.split_host_port neoha.Common.Text.itoa neoha.Mysql.Applier.apply_replica
    neoha.Mysql.Api.set_read_only neoha.Mysql.get_db neoha.Mysql.Api.start_slave
    neoha.Mysql.Api.set_slave_global_sys_var neoha.Mysql.Api.disable_semi_sync_master
    neoha.Mysql.Handler.set_read_only neoha.Mysql.Api.change_master_to
    neoha.Mysql.Handler.change_master_to
mysql_run_once_closes_example =
    mysql_run_once_closes server false (outside false) (λ c m. refl) world refl refl

run_once_promotes_example :
    (promotions (run_once (outside true) (mysql_driver server false) world).1.trace ≡ promotions [])
    ⊎ ((true ≡ true)
        × (((mysql_driver server false).promotable (node ReplMode.semi_sync)).0.0 ≡ true)
        × (false ≡ false))
run_once_promotes_example = run_once_promotes (outside true) (mysql_driver server false) world

abbrev up_and_down : List Call
up_and_down = Call.to_primary ∷ Call.to_replica ∷ Call.to_primary ∷ []

calls-refines_example :
    view (calls (outside true) up_and_down world).1
    ≡ some (
      "vip up",
      "vip down",
      replay (hook_configured "vip up") (calls (outside true) up_and_down world).0 false,
    )
calls-refines_example =
    calls-refines (outside true) up_and_down world "vip up" "vip down" false refl
