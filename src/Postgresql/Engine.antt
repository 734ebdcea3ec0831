-- ===== src/Postgresql/Engine.antt =====
-- The reconcile loop of internal/ha with the PostgreSQL layer of internal/database/postgresql as its
-- driver.
use neoha.Common.{false, ◌&&◌, String, ◌≡◌, ap, ◌∙◌}
use neoha.Common.Result.{ok}
use neoha.Reconcile.{World, Outside}
use neoha.Reconcile.Cycle.{run_once, compute_desired, is_primary}
use neoha.Reconcile.Cycle.Closing.{run_once_closes}
use neoha.Postgresql.{Host, Postgresql}
use neoha.Postgresql.Applier.{postgresql_driver}
use neoha.Postgresql.Contract.{Closed, serves, postgresql_driver-ClosesWrites}

-- A reconcile cycle on PostgreSQL that succeeds, and whose desired role is not that of the
-- primary, ends with the layer's flag off or with a server that was last seen unreachable or in
-- recovery: whatever the server, the programs of PostgreSQL, the coordinator and the earlier
-- state are, provided that a hook command changes nothing of the layer.
pub postgresql_run_once_closes :
    (h : Host) (o : Outside Postgresql)
    → ((c : String) (p : Postgresql) → (o.run_command c p).1 ≡ p)
    → (w : World Postgresql)
    → is_primary (compute_desired o (postgresql_driver h) w).0.db_role ≡ false
    → (run_once o (postgresql_driver h) w).0 ≡ ok tt
    → ((run_once o (postgresql_driver h) w).1.env.writable
        && serves (run_once o (postgresql_driver h) w).1.env.log)
      ≡ false
postgresql_run_once_closes h o quiet w e k =
    run_once_closes o (postgresql_driver h) Closed (postgresql_driver-ClosesWrites h)
      (λ c p d. ap (λ q. q.writable && serves q.log) (quiet c p) ∙ d) w e k
