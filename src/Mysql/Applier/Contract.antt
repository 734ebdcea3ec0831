-- ===== src/Mysql/Applier/Contract.antt =====
-- internal/database/mysql/driver.go keeps the contract of the HA layer.
use neoha.Common.{Bool, true, false, ◌≡◌, refl, ◌∙◌, ap, Bool-cases, inl, inr, List, ◌∷◌, []}
use neoha.Common.Result.{Result, ok, err}
use neoha.Raft.Wire.{is_mgr}
use neoha.Driver.{PrimaryRef, ClosesWrites, Health}
use neoha.Mysql.{
  Server, Mysql, Access, M, after, ◌>>=◌, ◌>>◌, get_db, run, run_list, Statement, result,
}
use neoha.Mysql.Handler
use neoha.Mysql.Api
use neoha.Mysql.Applier.{
  apply_replica, repl_of, leave_primary, writes, mysql_driver, mgr_replica_joined, status,
}
use neoha.Mysql.Applier.Traces.{Calm, Trace, get_db-Calm}
use neoha.Mysql.Applier.Steps.{
  start_slave-Calm, change_master_to-Calm, mgr_change_master_to-Calm, leave_primary-Calm,
  local_stat-Calm,
}
use neoha.Mysql.Applier.Closing.{read_only-Leads}

-- The layer has not opened the database.
abbrev pub Closed : Mysql → Type 0
Closed m = writes m.option ≡ false

abbrev Stays : {A : Type 0} → M A → Type 0
Stays x = (m : Mysql) → Closed m → Closed (x m).1

calm-Stays : {A : Type 0} (x : M A) → Calm x → Stays x
calm-Stays x c m h = ap (λ (t : Trace). writes t.0) (c m) ∙ h

after-Stays :
    {A B : Type 0} (x : Result A × Mysql) (f : A → M B)
    → ((a : A) → Stays (f a))
    → Closed x.1
    → Closed (after x f).1
after-Stays (ok a, m) f k h = k a m h
after-Stays (err e, m) f k h = h

chain-Stays :
    {A B : Type 0} (x : M A) (f : A → M B) → Stays x → ((a : A) → Stays (f a)) → Stays (x >>= f)
chain-Stays x f c k m h = after-Stays (x m) f k (c m h)

shown : Result Health → Bool
shown (ok h) = h.writable
shown (err e) = true

module _ (s : Server) where
  list-Stays : (cs : List Statement) → Stays (run_list s cs)
  list-Stays [] = λ m h. h
  list-Stays (c ∷ cs) = chain-Stays (run s c) (λ _. run_list s cs) (λ m h. h) (λ _. list-Stays cs)

  switches-Stays : (b : Bool) → Stays (Handler.set_read_only s b)
  unfolding Handler.set_read_only
  switches-Stays b m h =
      let cs = Statement.set_read_only b ∷ Statement.set_super_read_only b ∷ [] in
      after-Stays (result (s.session m.log), m) (λ _. run_list s cs) (λ _. list-Stays cs) h

  read_only-Stays : Stays (Api.set_read_only s)
  unfolding Api.set_read_only
  read_only-Stays =
      chain-Stays (get_db s >> Handler.set_read_only s true)
        (λ _ m. (ok tt, record m { option = Access.read_only }))
        (chain-Stays (get_db s) (λ _. Handler.set_read_only s true)
          (calm-Stays (get_db s) (get_db-Calm s)) (λ _. switches-Stays true))
        (λ _ m h. refl)

  replica-Stays : (p : PrimaryRef) → Stays (apply_replica s p)
  unfolding apply_replica
  replica-Stays p m c =
      let r = repl_of p m in
      let group =
        chain-Stays (Api.set_read_only s) (λ _. Api.mgr_change_master_to s r) read_only-Stays
          (λ _. calm-Stays (Api.mgr_change_master_to s r) (mgr_change_master_to-Calm s r)) in
      let closed =
        chain-Stays (leave_primary s) (λ _. Api.set_read_only s)
          (calm-Stays (leave_primary s) (leave_primary-Calm s)) (λ _. read_only-Stays) in
      let single =
        chain-Stays (leave_primary s >> Api.set_read_only s >> Api.change_master_to s r)
          (λ _. Api.start_slave s)
          (chain-Stays (leave_primary s >> Api.set_read_only s) (λ _. Api.change_master_to s r)
            closed (λ _. calm-Stays (Api.change_master_to s r) (change_master_to-Calm s r)))
          (λ _. calm-Stays (Api.start_slave s) (start_slave-Calm s)) in
      elim (Bool-cases (is_mgr m.conf.repl_mode)) [
        | inl e ↦ rw (e, apply_replica) (group m c)
        | inr e ↦ rw (e, apply_replica) (single m c)
      ]

  joined-Stays : Stays (mgr_replica_joined s)
  unfolding mgr_replica_joined
  joined-Stays m c = elim (Bool-cases (is_mgr m.conf.repl_mode)) [
    | inl e ↦
        rw (e, mgr_replica_joined)
          (chain-Stays (Api.get_local_mgr_stat s) _
            (calm-Stays (Api.get_local_mgr_stat s) (local_stat-Calm s)) (λ _ m h. h) m c)
    | inr e ↦ rw (e, mgr_replica_joined) c
  ]

  status_lem :
      (m : Mysql) (h : Health) → (status s m).0 ≡ ok h → h.writable ≡ false → Closed (status s m).1
  unfolding status shown
  status_lem m h k e = ap shown k ∙ e

  pub mysql_driver-ClosesWrites : (mgr : Bool) → ClosesWrites (mysql_driver s mgr) Closed
  unfolding mysql_driver
  mysql_driver-ClosesWrites mgr = record {
    demoted = λ m h. ap (λ (t : Trace). writes t.0) (read_only-Leads s m tt h);
    reported = status_lem;
    joined = joined-Stays;
    replicated = λ p m c _. replica-Stays p m c;
  }
