-- ===== src/Mysql/Applier/Promotion.antt =====
-- The operations of internal/database/mysql/api.go that a promotion chains, as far as they leave the
-- access of the database as it is.
use neoha.Common.{
  Bool, true, false, ℕ, zero, suc, List, [], ◌∷◌, ◌≡◌, refl, if◌then◌else◌, String, Bool-cases, inl,
  inr, ◌&&◌, ◌==◌, str_eq,
}
use neoha.Common.Text.{is_empty}
use neoha.Common.Result.{Result, ok, err}
use neoha.Raft.Wire.{Repl, is_mgr, Gtid}
use neoha.Mysql.{
  Server, Statement, Row, Query, M, ◌>>=◌, ◌>>◌, return, attempt, run, run_all, get_db, fail, field,
}
use neoha.Mysql.Handler
use neoha.Mysql.Handler.{build_group, of_first, next_round}
use neoha.Mysql.Api
use neoha.Mysql.Applier.{mgr_already_primary, or_false, has_role, is_role}
use neoha.Mysql.Applier.Traces.{Calm, chain-Calm, run-Calm, run_all-Calm, all_calm, choose-Calm}
use neoha.Mysql.Applier.Steps.{
  connected, ask-Calm, mgr_gtid-Calm, slave_gtid-Calm, master_gtid-Calm, mgr_running-Calm,
  local_stat-Calm,
}

round-Calm : (rest : M (Unit {0})) → Calm rest → (g : Result Gtid) → Calm (next_round rest g)
round-Calm rest c (ok g) =
    choose-Calm (str_eq g.txns_behind_master "0") (return tt) rest (λ m. refl) c
round-Calm rest c (err e) = c

address_of_rows-Calm :
    (rows : List Row)
    → Calm (
        of_first
          (fail "group_replication_local_address.not.found")
          (λ r. return (field "@@GLOBAL.group_replication_local_address" r))
          rows)
address_of_rows-Calm [] m = refl
address_of_rows-Calm (r ∷ rs) m = refl

module _ (s : Server) where
  pub wait-Calm : (g : String) → Calm (Api.wait_until_after_gtid s g)
  unfolding Api.wait_until_after_gtid
  wait-Calm g =
      connected s (run s (Statement.wait_after_gtids g))
        (run-Calm s (Statement.wait_after_gtids g) refl)

  pub get_gtid-Calm : Calm (Api.get_gtid s)
  unfolding Api.get_gtid
  get_gtid-Calm m = elim (Bool-cases (is_mgr m.conf.repl_mode)) [
    | inl e ↦ rw (e, Api.get_gtid) (connected s (Handler.get_mgr_gtid s) (mgr_gtid-Calm s) m)
    | inr e ↦
        rw (e, Api.get_gtid)
          (chain-Calm (get_db s >> Handler.get_slave_gtid s) _
            (connected s (Handler.get_slave_gtid s) (slave_gtid-Calm s))
            (λ g.
              choose-Calm (is_empty g.slave_io_running_str && is_empty g.slave_sql_running_str)
                (get_db s >> Handler.get_master_gtid s) (return g)
                (connected s (Handler.get_master_gtid s) (master_gtid-Calm s)) (λ m. refl))
            m)
  ]

  rounds-Calm : (n : ℕ) → Calm (Handler.wait_apply_relay_log s n)
  unfolding Handler.wait_apply_relay_log
  rounds-Calm zero = λ m. refl
  rounds-Calm (suc n) =
      chain-Calm (attempt (Handler.get_mgr_gtid s)) (next_round (Handler.wait_apply_relay_log s n))
        (λ m. mgr_gtid-Calm s m) (round-Calm (Handler.wait_apply_relay_log s n) (rounds-Calm n))

  pub wait_apply-Calm : (n : ℕ) → Calm (Api.wait_apply_relay_log s n)
  unfolding Api.wait_apply_relay_log
  wait_apply-Calm n = connected s (Handler.wait_apply_relay_log s n) (rounds-Calm n)

  has_role-Calm : (r : String) → Calm (has_role s r)
  has_role-Calm r =
      chain-Calm (attempt (Api.get_local_mgr_stat s)) (λ st. return (is_role r st))
        (λ m. local_stat-Calm s m) (λ st m. refl)

  pub already-Calm : Calm (mgr_already_primary s)
  unfolding mgr_already_primary
  already-Calm =
      chain-Calm (attempt (Api.is_mgr_running_ok s))
        (λ r. if or_false r then has_role s "PRIMARY" else return false) (λ m. mgr_running-Calm s m)
        (λ r.
          choose-Calm (or_false r) (has_role s "PRIMARY") (return false) (has_role-Calm "PRIMARY")
            (λ m. refl))

  group_calm :
      (p : Repl) (addr : String) (b : Bool)
      → is_empty addr ≡ b
      → all_calm (build_group p addr) ≡ true
  group_calm p addr true e = rw e refl
  group_calm p addr false e = rw e refl

  address-Calm : Calm (Handler.local_address s)
  unfolding Handler.local_address
  address-Calm = ask-Calm s Query.local_address _ address_of_rows-Calm

  rebuild-Calm :
      (p : Repl) (rows : List Row)
      → Calm (
          if Handler.live_members rows == 1
          then (Handler.local_address s >>= λ addr.
              run_all s (Statement.force_members addr ∷ build_group p addr))
          else run_all s (build_group p ""))
  rebuild-Calm p rows =
      choose-Calm (Handler.live_members rows == 1)
        (Handler.local_address s >>= λ addr.
          run_all s (Statement.force_members addr ∷ build_group p addr))
        (run_all s (build_group p ""))
        (chain-Calm (Handler.local_address s)
          (λ addr. run_all s (Statement.force_members addr ∷ build_group p addr)) address-Calm
          (λ addr.
            run_all-Calm s (Statement.force_members addr ∷ build_group p addr)
              (group_calm p addr _ refl)))
        (run_all-Calm s (build_group p "") refl)

  changed-Calm : (mgr : Bool) (p : Repl) → Calm (Handler.change_to_master s mgr p)
  unfolding Handler.change_to_master Handler.get_mgr_stats
  changed-Calm true p = ask-Calm s Query.group_members _ (rebuild-Calm p)
  changed-Calm false p = run_all-Calm s (Statement.stop_slave ∷ Statement.reset_slave_all ∷ []) refl

  pub change_to_master-Calm : (p : Repl) → Calm (Api.change_to_master s p)
  unfolding Api.change_to_master
  change_to_master-Calm p m =
      connected s (Handler.change_to_master s (is_mgr m.conf.repl_mode) p)
        (changed-Calm (is_mgr m.conf.repl_mode) p) m
