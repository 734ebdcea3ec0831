-- ===== src/Mysql/Applier/Steps.antt =====
-- The operations of internal/database/mysql/api.go that leave the access of the database as it is.
use neoha.Common.{Bool, true, false, List, [], ◌∷◌, ◌≡◌, refl, ◌∙◌, if◌then◌else◌, String}
use neoha.Common.Text.{is_empty}
use neoha.Mysql.Handler.{source_commands, rejoin_commands, build_group}
use neoha.Common.Result.{Result, ok, is_ok}
use neoha.Raft.Wire.{Repl}
use neoha.Mysql.{
  Server, Statement, Query, M, ◌>>=◌, ◌>>◌, return, ask, run, get_db, Row, logged, field,
}
use neoha.Mysql.Handler
use neoha.Mysql.Handler.{of_first, exactly_one}
use neoha.Mysql.Handler.Diff.{gtid_length}
use neoha.Mysql.Api
use neoha.Mysql.Applier.{leave_primary}
use neoha.Mysql.Applier.Traces.{all_calm, Calm, chain-Calm, get_db-Calm, run-Calm, run_all-Calm}

counted :
    (rows : List Row) → Calm (of_first (return "") (λ r m. (gtid_length (field "RES" r), m)) rows)
counted [] m = refl
counted (r ∷ rs) m = refl

only_one : (e k : String) (rows : List Row) → Calm (exactly_one e k rows)
only_one e k [] m = refl
only_one e k (r ∷ []) m = refl
only_one e k (r ∷ q ∷ rs) m = refl

module _ (s : Server) where
  pub connected : {A : Type 0} (x : M A) → Calm x → Calm (get_db s >> x)
  connected x c = chain-Calm (get_db s) (λ _. x) (get_db-Calm s) (λ _. c)

  pub start_slave-Calm : Calm (Api.start_slave s)
  unfolding Api.start_slave
  start_slave-Calm = connected (run s Statement.start_slave) (run-Calm s Statement.start_slave refl)

  pub disable-Calm : Calm (Api.disable_semi_sync_master s)
  unfolding Api.disable_semi_sync_master
  disable-Calm =
      connected (run s (Statement.semi_sync_master false))
        (run-Calm s (Statement.semi_sync_master false) refl)

  pub enable-Calm : Calm (Api.enable_semi_sync_master s)
  unfolding Api.enable_semi_sync_master
  enable-Calm =
      connected (run s (Statement.semi_sync_master true))
        (run-Calm s (Statement.semi_sync_master true) refl)

  sourced :
      (p : Repl) (b : Bool) → is_empty p.repl_gtid_purged ≡ b → all_calm (source_commands p) ≡ true
  sourced p true e = rw e refl
  sourced p false e = rw e refl

  pub change_master_to-Calm : (p : Repl) → Calm (Api.change_master_to s p)
  unfolding Api.change_master_to Handler.change_master_to
  change_master_to-Calm p =
      connected (Handler.change_master_to s p)
        (run_all-Calm s (source_commands p) (sourced p _ refl))

  pub mgr_change_master_to-Calm : (p : Repl) → Calm (Api.mgr_change_master_to s p)
  unfolding Api.mgr_change_master_to Handler.mgr_change_master_to
  mgr_change_master_to-Calm p =
      connected (Handler.mgr_change_master_to s p) (run_all-Calm s (rejoin_commands p) refl)

  pub set_vars-Calm : (r : Result (Unit {0})) (vs : List String) → Calm (Api.set_vars s r vs)
  unfolding Api.set_vars
  set_vars-Calm r [] m = refl
  set_vars-Calm r (v ∷ vs) m =
      let x = get_db s >> run s (Statement.set_global v) in
      set_vars-Calm (if is_ok (x m).0 then r else (x m).0) vs (x m).1
      ∙ connected (run s (Statement.set_global v)) (run-Calm s (Statement.set_global v) refl) m

  pub slave_vars-Calm : Calm (Api.set_slave_global_sys_var s)
  unfolding Api.set_slave_global_sys_var
  slave_vars-Calm m = set_vars-Calm (ok tt) m.conf.slave_sys_vars m

  pub master_vars-Calm : Calm (Api.set_master_global_sys_var s)
  unfolding Api.set_master_global_sys_var
  master_vars-Calm m = set_vars-Calm (ok tt) m.conf.master_sys_vars m

  pub leave_primary-Calm : Calm (leave_primary s)
  leave_primary-Calm =
      chain-Calm
        (logged (Api.disable_semi_sync_master s) >> logged (Api.set_slave_global_sys_var s))
        (λ _. logged (Api.start_slave s))
        (chain-Calm (logged (Api.disable_semi_sync_master s))
          (λ _. logged (Api.set_slave_global_sys_var s)) (λ m. disable-Calm m)
          (λ _ m. slave_vars-Calm m))
        (λ _ m. start_slave-Calm m)

  asks : {A : Type 0} (q : Query) (f : List Row → A) → Calm (ask s q >>= λ rows. return (f rows))
  asks q f = chain-Calm (ask s q) (λ rows. return (f rows)) (λ m. refl) (λ rows m. refl)

  pub ask-Calm :
      {A : Type 0} (q : Query) (f : List Row → M A)
      → ((rows : List Row) → Calm (f rows))
      → Calm (ask s q >>= f)
  ask-Calm q f c = chain-Calm (ask s q) f (λ m. refl) c

  diff-Calm : (a b : String) → Calm (Handler.gtid_diff s a b)
  unfolding Handler.gtid_diff
  diff-Calm a b = ask-Calm (Query.gtid_subtract a b) _ (λ rows. counted rows)

  pub mgr_running-Calm : Calm (Api.is_mgr_running_ok s)
  unfolding Api.is_mgr_running_ok Handler.is_mgr_running_ok
  mgr_running-Calm =
      connected (Handler.is_mgr_running_ok s)
        (asks Query.broken_members (of_first true (λ _. false)))

  pub mgr_gtid-Calm : Calm (Handler.get_mgr_gtid s)
  unfolding Handler.get_mgr_gtid
  mgr_gtid-Calm =
      ask-Calm Query.master_status _
        (λ masters. ask-Calm Query.received_set _ (λ received. λ m. diff-Calm _ _ m))

  pub slave_gtid-Calm : Calm (Handler.get_slave_gtid s)
  unfolding Handler.get_slave_gtid
  slave_gtid-Calm = asks Query.slave_status _

  pub master_gtid-Calm : Calm (Handler.get_master_gtid s)
  unfolding Handler.get_master_gtid
  master_gtid-Calm = asks Query.master_status _

  pub local_stat-Calm : Calm (Api.get_local_mgr_stat s)
  unfolding Api.get_local_mgr_stat Handler.get_local_mgr_stat Handler.get_server_id
      Handler.get_mgr_stats
  local_stat-Calm = connected (Handler.get_local_mgr_stat s) (
      chain-Calm (Handler.get_server_id s) _
        (ask-Calm Query.server_id _ (λ rows. only_one _ _ rows)) (λ id. asks Query.group_members _))
