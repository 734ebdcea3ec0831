-- ===== src/Mysql/Applier/Closing.antt =====
-- What internal/database/mysql/driver.go does to the access of the database: which of the driver's
-- operations open it, and which close it.
use neoha.Common.{Bool, true, false, ◌≡◌, refl, Bool-cases, inl, inr, if◌then◌else◌}
use neoha.Common.Result.{Result, ok}
use neoha.Raft.Wire.{is_mgr}
use neoha.Driver.{PrimaryRef}
use neoha.Mysql.{Server, Mysql, Access, M, ◌>>=◌, ◌>>◌, return, attempt}
use neoha.Mysql.Api
use neoha.Mysql.Applier.{
  apply_replica, repl_of, leave_primary, apply_primary, apply_primary_mgr, apply_primary_semi_sync,
  mgr_already_primary, repl_from_conf, or_false, become_mgr_primary,
}
use neoha.Mysql.Applier.Traces.{
  Calm, Leads, Trace, chain-Calm, chain-Leads, Calm-Leads, choose-Calm, switch-Leads, set_to,
  access_of,
}
use neoha.Mysql.Applier.Steps.{
  start_slave-Calm, enable-Calm, change_master_to-Calm, mgr_change_master_to-Calm, master_vars-Calm,
  leave_primary-Calm, mgr_running-Calm,
}
use neoha.Mysql.Applier.Promotion.{
  wait-Calm, get_gtid-Calm, wait_apply-Calm, already-Calm, change_to_master-Calm,
}

module _ (s : Server) where
  pub read_only-Leads : Leads (Api.set_read_only s) (set_to s true Access.read_only)
  unfolding Api.set_read_only
  read_only-Leads = switch-Leads s true Access.read_only

  read_write-Leads : Leads (Api.set_read_write s) (set_to s false Access.read_write)
  unfolding Api.set_read_write
  read_write-Leads = switch-Leads s false Access.read_write

  -- A chain with one step that changes the access.
  pub before-Leads :
      {A B : Type 0} (x : M A) (f : A → M B) (g : Trace → Trace)
      → Calm x
      → ((a : A) → Leads (f a) g)
      → Leads (x >>= f) g
  before-Leads x f g c k = chain-Leads x f (λ t. t) g (Calm-Leads x c) k

  pub behind-Leads :
      {A B : Type 0} (x : M A) (f : A → M B) (g : Trace → Trace)
      → Leads x g
      → ((a : A) → Calm (f a))
      → Leads (x >>= f) g
  behind-Leads x f g c k = chain-Leads x f g (λ t. t) c (λ a. Calm-Leads (f a) (k a))

  apply_replica-Leads :
      (p : PrimaryRef) → Leads (apply_replica s p) (set_to s true Access.read_only)
  unfolding apply_replica
  apply_replica-Leads p m a h =
      let close = set_to s true Access.read_only in
      let r = repl_of p m in
      let group =
        behind-Leads (Api.set_read_only s) (λ _. Api.mgr_change_master_to s r) close read_only-Leads
          (λ _. mgr_change_master_to-Calm s r) in
      let single =
        behind-Leads (leave_primary s >> Api.set_read_only s >> Api.change_master_to s r)
          (λ _. Api.start_slave s) close
          (behind-Leads (leave_primary s >> Api.set_read_only s) (λ _. Api.change_master_to s r)
            close
            (before-Leads (leave_primary s) (λ _. Api.set_read_only s) close (leave_primary-Calm s)
              (λ _. read_only-Leads))
            (λ _. change_master_to-Calm s r))
          (λ _. start_slave-Calm s) in
      elim (Bool-cases (is_mgr m.conf.repl_mode)) [
        | inl e ↦ rw (e, apply_replica) (group m a (rw (e, apply_replica) at h))
        | inr e ↦ rw (e, apply_replica) (single m a (rw (e, apply_replica) at h))
      ]

  apply_primary_semi_sync-Leads :
      Leads (apply_primary_semi_sync s) (set_to s false Access.read_write)
  unfolding apply_primary_semi_sync
  apply_primary_semi_sync-Leads =
      let open_all = set_to s false Access.read_write in
      let become = λ (m : Mysql). Api.change_to_master s (repl_from_conf m) m in
      before-Leads (Api.get_gtid s) _ open_all (get_gtid-Calm s) (λ g.
        before-Leads
          (Api.wait_until_after_gtid s g.retrieved_gtid_set
            >> become
            >> Api.enable_semi_sync_master s
            >> Api.set_master_global_sys_var s)
          (λ _. Api.set_read_write s) open_all
          (chain-Calm
            (Api.wait_until_after_gtid s g.retrieved_gtid_set
              >> become
              >> Api.enable_semi_sync_master s)
            (λ _. Api.set_master_global_sys_var s)
            (chain-Calm (Api.wait_until_after_gtid s g.retrieved_gtid_set >> become)
              (λ _. Api.enable_semi_sync_master s)
              (chain-Calm (Api.wait_until_after_gtid s g.retrieved_gtid_set) (λ _. become)
                (wait-Calm s g.retrieved_gtid_set)
                (λ _ m. change_to_master-Calm s (repl_from_conf m) m))
              (λ _. enable-Calm s))
            (λ _. master_vars-Calm s))
          (λ _. read_write-Leads))

  choose-Leads :
      {A : Type 0} (b : Bool) (x y : M A) (k : Trace → Trace)
      → Leads x k
      → Leads y k
      → Leads (if b then x else y) k
  choose-Leads true x y k c d = c
  choose-Leads false x y k c d = d

  become_mgr_primary-Leads : Leads (become_mgr_primary s) (set_to s true Access.read_only)
  become_mgr_primary-Leads =
      let close = set_to s true Access.read_only in
      let become = λ (m : Mysql). Api.change_to_master s (repl_from_conf m) m in
      let vars =
        λ (r : Result Bool). if or_false r then return tt else Api.set_master_global_sys_var s in
      before-Leads (attempt (Api.is_mgr_running_ok s))
        (λ r. vars r >> become >> Api.set_read_only s) close (λ m. mgr_running-Calm s m)
        (λ r.
          before-Leads (vars r >> become) (λ _. Api.set_read_only s) close
            (chain-Calm (vars r) (λ _. become)
              (choose-Calm (or_false r) (return tt) (Api.set_master_global_sys_var s) (λ m. refl)
                (master_vars-Calm s))
              (λ _ m. change_to_master-Calm s (repl_from_conf m) m))
            (λ _. read_only-Leads))

  apply_primary_mgr-Leads : Leads (apply_primary_mgr s) (set_to s true Access.read_only)
  unfolding apply_primary_mgr
  apply_primary_mgr-Leads =
      let close = set_to s true Access.read_only in
      before-Leads (Api.wait_apply_relay_log s 15 >> mgr_already_primary s)
        (λ already. if already then Api.set_read_only s else become_mgr_primary s) close
        (chain-Calm (Api.wait_apply_relay_log s 15) (λ _. mgr_already_primary s)
          (wait_apply-Calm s 15) (λ _. already-Calm s))
        (λ already.
          choose-Leads already (Api.set_read_only s) (become_mgr_primary s) close read_only-Leads
            become_mgr_primary-Leads)

  -- A promotion that succeeds has run just two statements that open or close the database, both
  -- at its end of that kind: read_only and super_read_only are set off and the option is
  -- READWRITE under semi-sync, and both are set on and the option is READONLY under group
  -- replication, where the second phase opens.
  pub apply_primary_access :
      (m : Mysql) (a : Unit {0})
      → (apply_primary s m).0 ≡ ok a
      → access_of (apply_primary s m).1 ≡ (
          if is_mgr m.conf.repl_mode
          then set_to s true Access.read_only (access_of m)
          else set_to s false Access.read_write (access_of m))
  unfolding apply_primary
  apply_primary_access m a h = elim (Bool-cases (is_mgr m.conf.repl_mode)) [
    | inl e ↦ rw (e, apply_primary) (apply_primary_mgr-Leads m a (rw (e, apply_primary) at h))
    | inr e ↦ rw (e, apply_primary) (apply_primary_semi_sync-Leads m a (rw (e, apply_primary) at h))
  ]

  -- ApplyReplica that succeeds has run just two statements that open or close the database,
  -- which set read_only and then super_read_only on, and leaves the option READONLY, in both
  -- replication modes and with any server.
  pub apply_replica_access :
      (p : PrimaryRef) (m : Mysql) (a : Unit {0})
      → (apply_replica s p m).0 ≡ ok a
      → access_of (apply_replica s p m).1 ≡ set_to s true Access.read_only (access_of m)
  apply_replica_access p m a h = apply_replica-Leads p m a h
