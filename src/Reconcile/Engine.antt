-- ===== src/Reconcile/Engine.antt =====
-- The reconcile loop of internal/ha with the MySQL layer of internal/database/mysql as its driver.
use neoha.Common.{Bool, false, String, ◌≡◌, ap, ◌∙◌}
use neoha.Common.Result.{ok}
use neoha.Reconcile.{World, Outside}
use neoha.Reconcile.Cycle.{run_once, compute_desired, is_primary}
use neoha.Reconcile.Cycle.Closing.{run_once_closes}
use neoha.Mysql.{Server, Mysql}
use neoha.Mysql.Applier.{mysql_driver, writes}
use neoha.Mysql.Applier.Contract.{Closed, mysql_driver-ClosesWrites}

-- A reconcile cycle on MySQL that succeeds, and whose desired role is not that of the primary,
-- leaves the MySQL layer with an option other than READWRITE, so that the node reports a
-- database that takes no writes: whatever the server, the coordinator and the earlier state are,
-- provided that a hook command does not set the option.
pub mysql_run_once_closes :
    (s : Server) (mgr : Bool) (o : Outside Mysql)
    → ((c : String) (m : Mysql) → (o.run_command c m).1.option ≡ m.option)
    → (w : World Mysql) → is_primary (compute_desired o (mysql_driver s mgr) w).0.db_role ≡ false
    → (run_once o (mysql_driver s mgr) w).0 ≡ ok tt
    → writes (run_once o (mysql_driver s mgr) w).1.env.option ≡ false
mysql_run_once_closes s mgr o quiet w e k =
    run_once_closes o (mysql_driver s mgr) Closed (mysql_driver-ClosesWrites s mgr)
      (λ c m h. ap writes (quiet c m) ∙ h) w e k
