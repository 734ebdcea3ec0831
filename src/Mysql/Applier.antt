-- ===== src/Mysql/Applier.antt =====
-- internal/database/mysql/driver.go: the MySQL layer as the `Driver` of the HA layer.
pub mod Traces
pub mod Steps
pub mod Promotion
pub mod Closing
pub mod Contract
use neoha.Common.{
  Bool, true, false, ◌&&◌, ◌||◌, ℕ, suc, leb, String, if◌then◌else◌, List, [], ◌∷◌, str_eq,
}
use neoha.Common.Result.{Result, ok, err}
use neoha.Common.Text.{ℤ, pos, negsuc, is_zero, is_empty}
use neoha.Raft.Wire.{Repl, MgrStatus, is_live_member, is_mgr}
use neoha.Mysql.{Server, Mysql, Access, Row, field, M, ◌>>=◌, ◌>>◌, return, attempt, logged}
use neoha.Mysql.Api
use neoha.Driver.{Driver, Health, Role, PrimaryRef}

abbrev pub repl_from_conf : Mysql → Repl
repl_from_conf m = record {
  master_host = m.conf.repl_host;
  master_port = m.conf.port;
  repl_user = m.conf.repl_user;
  repl_password = m.conf.repl_passwd;
  repl_gtid_purged = m.conf.repl_gtid_purged;
}

-- A port is not negative in `Repl`: a negative one, at which no server listens, stands as 0.
abbrev port_of : ℤ → ℕ
port_of (pos n) = n
port_of (negsuc n) = 0

-- The source of a replica: the given primary, where it has a host and a port.
unfoldable pub repl_of : PrimaryRef → Mysql → Repl
repl_of p m =
    let r = repl_from_conf m in
    record r {
      master_host = if is_empty p.host then r.master_host else p.host;
      master_port = if is_zero p.port then r.master_port else port_of p.port;
    }

abbrev pub writes : Access → Bool
writes Access.read_write = true
writes Access.read_only = false
writes Access.unset = false

abbrev pub or_false : Result Bool → Bool
or_false (ok b) = b
or_false (err e) = false

abbrev pub is_role : String → Result MgrStatus → Bool
is_role r (ok st) = str_eq st.role r
is_role r (err e) = false

live_rows : List Row → ℕ
live_rows [] = 0
live_rows (r ∷ rs) =
    let rest = live_rows rs in if is_live_member (field "MEMBER_STATE" r) then suc rest else rest

has_live : String → List Row → Bool
has_live id [] = false
has_live id (r ∷ rs) =
    (is_live_member (field "MEMBER_STATE" r) && str_eq (field "MEMBER_ID" r) id) || has_live id rs

module _ (s : Server) where
  abbrev pub has_role : String → M Bool
  has_role r = attempt (Api.get_local_mgr_stat s) >>= λ st. return (is_role r st)

  -- `mgrAlreadyPrimary`.
  unfoldable pub mgr_already_primary : M Bool
  mgr_already_primary = attempt (Api.is_mgr_running_ok s) >>= λ running.
      if or_false running then has_role "PRIMARY" else return false

  -- `applyPrimaryMGR`: the group is not yet opened, which the second phase does.
  abbrev pub become_mgr_primary : M (Unit {0})
  become_mgr_primary = attempt (Api.is_mgr_running_ok s) >>= λ running.
      (if or_false running then return tt else Api.set_master_global_sys_var s)
      >> (λ m. Api.change_to_master s (repl_from_conf m) m)
      >> Api.set_read_only s

  unfoldable pub apply_primary_mgr : M (Unit {0})
  apply_primary_mgr = Api.wait_apply_relay_log s 15 >> mgr_already_primary >>= λ already.
      if already then Api.set_read_only s else become_mgr_primary

  -- `applyPrimarySemiSync`.
  unfoldable pub apply_primary_semi_sync : M (Unit {0})
  apply_primary_semi_sync = Api.get_gtid s >>= λ g.
      Api.wait_until_after_gtid s g.retrieved_gtid_set
      >> (λ m. Api.change_to_master s (repl_from_conf m) m)
      >> Api.enable_semi_sync_master s
      >> Api.set_master_global_sys_var s
      >> Api.set_read_write s

  unfoldable pub apply_primary : M (Unit {0})
  apply_primary m =
      if is_mgr m.conf.repl_mode then apply_primary_mgr m else apply_primary_semi_sync m

  -- The attempts of `ApplyReplica` whose errors are only logged.
  abbrev pub leave_primary : M (Unit {0})
  leave_primary =
      logged (Api.disable_semi_sync_master s)
      >> logged (Api.set_slave_global_sys_var s)
      >> logged (Api.start_slave s)

  -- `ApplyReplica`: the database is closed before it is given another source.
  unfoldable pub apply_replica : PrimaryRef → M (Unit {0})
  unfolding repl_of
  apply_replica p m =
      if is_mgr m.conf.repl_mode
      then (Api.set_read_only s >> Api.mgr_change_master_to s (repl_of p m)) m
      else (leave_primary
            >> Api.set_read_only s
            >> Api.change_master_to s (repl_of p m)
            >> Api.start_slave s)
          m

  -- `Status`.
  unfoldable pub status : M Health
  status m =
      let w = writes m.option in
      (
        ok (record {
          alive = Api.is_alive m.state;
          writable = w;
          role = if w then Role.role_primary else Role.role_replica;
        }),
        m,
      )

  -- `MGRPrimaryPhase1Done`.
  unfoldable pub mgr_primary_phase1_done : M Bool
  mgr_primary_phase1_done m =
      if is_mgr m.conf.repl_mode then mgr_already_primary m else (ok false, m)

  -- `MGRClusterWritableReady`: the primary and one more member live.
  unfoldable pub mgr_cluster_writable_ready : M Bool
  unfolding live_rows has_live
  mgr_cluster_writable_ready m =
      if is_mgr m.conf.repl_mode
      then (Api.get_mgr_stats s >>= λ rows. Api.get_mgr_master_uuid s >>= λ uuid.
            return (has_live uuid rows && leb 2 (live_rows rows)))
          m
      else (ok false, m)

  -- `MGRReplicaJoined`.
  unfoldable pub mgr_replica_joined : M Bool
  mgr_replica_joined m =
      if is_mgr m.conf.repl_mode
      then (Api.get_local_mgr_stat s >>= λ st.
            return (str_eq st.role "SECONDARY" && is_live_member st.member_state))
          m
      else (ok false, m)

  -- `Promotable`, with its reason.
  unfoldable pub promotable : Mysql → (Bool × String) × Mysql
  promotable m =
      let (b, m') = Api.promotable s m in
      if b then ((true, ""), m') else ((false, "mysql.not.promotable"), m')

  -- The engine in the replication mode that it is configured with.
  unfoldable pub mysql_driver : Bool → Driver Mysql
  mysql_driver mgr = record {
    promotable = promotable;
    status = status;
    apply_primary = apply_primary;
    apply_replica = apply_replica;
    demote = Api.set_read_only s;
    is_mgr_mode = mgr;
    mgr_primary_phase1_done = mgr_primary_phase1_done;
    mgr_cluster_writable_ready = mgr_cluster_writable_ready;
    apply_primary_mgr_phase2 = Api.set_read_write s;
    mgr_replica_joined = mgr_replica_joined;
  }
