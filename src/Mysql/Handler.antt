-- ===== src/Mysql/Handler.antt =====
-- internal/database/mysql/mysqlbase.go, with mysql80.go for the status of a group.
pub mod Diff
pub mod Waiting
use neoha.Common.{
  Bool, true, false, not, ◌&&◌, ◌||◌, ℕ, zero, suc, ◌==◌, ltb, String, Option, none, some, List, [],
  ◌∷◌, ◌++◌, if◌then◌else◌, str_eq,
}
use neoha.Common.Result.{Result, ok, err}
use neoha.Common.Text.{parse_uint, is_empty}
use neoha.Raft.Wire.{Gtid, empty_gtid, Repl, MgrStatus, is_live_member, is_mgr}
use neoha.Mysql.{
  Query, Statement, Row, field, first, Server, Mysql, M, ◌>>=◌, ◌>>◌, return, fail, attempt, ask,
  run, run_all,
}
use neoha.Mysql.Handler.Diff.{gtid_length}

slave_gtid : Row → Gtid
slave_gtid r = record empty_gtid {
  master_log_file = field "Master_Log_File" r;
  read_master_log_pos = parse_uint (field "Read_Master_Log_Pos" r);
  retrieved_gtid_set = field "Retrieved_Gtid_Set" r;
  executed_gtid_set = field "Executed_Gtid_Set" r;
  slave_io_running_str = field "Slave_IO_Running" r;
  slave_sql_running = str_eq (field "Slave_SQL_Running" r) "Yes";
  slave_sql_running_str = field "Slave_SQL_Running" r;
  seconds_behind_master = field "Seconds_Behind_Master" r;
}

master_gtid : Row → Gtid
master_gtid r = record empty_gtid {
  master_log_file = field "File" r;
  read_master_log_pos = parse_uint (field "Position" r);
  executed_gtid_set = field "Executed_Gtid_Set" r;
}

abbrev pub of_first : {A : Type 0} → A → (Row → A) → List Row → A
of_first a f [] = a
of_first a f (r ∷ rs) = f r

-- The statements of `ChangeMasterTo` and `MGRChangeMasterTo`.
abbrev pub source_commands : Repl → List Statement
source_commands p =
    let set_source = Statement.change_master p ∷ Statement.start_slave ∷ [] in
    Statement.stop_slave
    ∷ (if is_empty p.repl_gtid_purged
        then set_source
        else Statement.reset_master
          ∷ Statement.reset_slave_all
          ∷ Statement.set_gtid_purged p.repl_gtid_purged
          ∷ set_source)

abbrev pub rejoin_commands : Repl → List Statement
rejoin_commands p =
    Statement.stop_mgr
    ∷ Statement.change_recovery_channel p.repl_user p.repl_password
    ∷ Statement.bootstrap_group false
    ∷ Statement.start_mgr
    ∷ []

-- `countMGRLiveMembers`, by mgrGroupView.
unfoldable pub live_members : List Row → ℕ
live_members [] = 0
live_members (r ∷ rs) =
    let rest = live_members rs in if is_live_member (field "MEMBER_STATE" r) then suc rest else rest

-- The group is built anew: the last live member first forces the view of the group on itself.
abbrev pub build_group : Repl → String → List Statement
build_group p addr =
    Statement.stop_mgr
    ∷ Statement.change_recovery_channel p.repl_user p.repl_password
    ∷ Statement.bootstrap_group true
    ∷ Statement.start_mgr
    ∷ Statement.bootstrap_group false
    ∷ (if is_empty addr then [] else Statement.force_members "" ∷ [])

abbrev pub exactly_one : String → String → List Row → M String
exactly_one e k [] = fail e
exactly_one e k (r ∷ []) = return (field k r)
exactly_one e k (r ∷ q ∷ rs) = fail e

-- A round of `WaitApplyRelayLog` is the last one when nothing is left to apply.
abbrev pub next_round : M (Unit {0}) → Result Gtid → M (Unit {0})
next_round rest (ok g) = if str_eq g.txns_behind_master "0" then return tt else rest
next_round rest (err e) = rest

module _ (s : Server) where
  -- `SetReadOnly`.
  unfoldable pub set_read_only : Bool → M (Unit {0})
  set_read_only b = run_all s (Statement.set_read_only b ∷ Statement.set_super_read_only b ∷ [])

  -- `GTIDSubtract` and `GTIDDiff`: how many transactions are in the first set alone, as a text.
  unfoldable pub gtid_diff : String → String → M String
  gtid_diff a b = ask s (Query.gtid_subtract a b) >>= λ rows.
      of_first (return "") (λ r m. (gtid_length (field "RES" r), m)) rows

  -- `GetMGRGTID`.
  unfoldable pub get_mgr_gtid : M Gtid
  unfolding master_gtid
  get_mgr_gtid = ask s Query.master_status >>= λ masters. ask s Query.received_set >>= λ received.
      (let g = record (of_first empty_gtid master_gtid masters) {
        retrieved_gtid_set = of_first "" (field "RECEIVED_TRANSACTION_SET") received;
      } in
        attempt (gtid_diff g.retrieved_gtid_set g.executed_gtid_set) >>= λ diff.
        return (elim diff [ ok d ↦ record g { txns_behind_master = d } | err e ↦ g ]))

  -- `GetSlaveGTID`.
  unfoldable pub get_slave_gtid : M Gtid
  unfolding slave_gtid
  get_slave_gtid = ask s Query.slave_status >>= λ rows. return (of_first empty_gtid slave_gtid rows)

  -- `GetMasterGTID`.
  unfoldable pub get_master_gtid : M Gtid
  unfolding master_gtid
  get_master_gtid = ask s Query.master_status >>= λ rows. return (
      of_first empty_gtid
        (λ r. record (master_gtid r) { seconds_behind_master = "0"; slave_sql_running = true })
        rows)

  -- `GetUUID`.
  unfoldable pub get_uuid : M String
  get_uuid = ask s Query.server_uuid >>= λ rows. return (of_first "" (field "@@SERVER_UUID") rows)

  -- `GTIDBigger`.
  unfoldable pub gtid_bigger : String → String → M Bool
  gtid_bigger a b = ask s (Query.gtid_subtract a b) >>= λ rows.
      return (of_first false (λ r. not (is_empty (field "RES" r))) rows)

  -- `GetGTIDSubtract`.
  unfoldable pub get_gtid_subtract : String → String → M String
  get_gtid_subtract a b =
      ask s (Query.gtid_sub a b) >>= λ rows. return (of_first "" (field "gtid_sub") rows)

  -- `IsMGRRunningOK`.
  unfoldable pub is_mgr_running_ok : M Bool
  is_mgr_running_ok =
      ask s Query.broken_members >>= λ rows. return (of_first true (λ _. false) rows)

  -- `GetMGRStats`.
  unfoldable pub get_mgr_stats : M (List Row)
  get_mgr_stats = ask s Query.group_members

  -- `GetMGRMasterUUID`.
  unfoldable pub get_mgr_master_uuid : M String
  get_mgr_master_uuid =
      ask s Query.primary_member
      >>= exactly_one "get.group.replication.master.failed" "VARIABLE_VALUE"

  -- `GetServerID`.
  unfoldable pub get_server_id : M String
  get_server_id =
      ask s Query.server_id >>= exactly_one "get.group.replication.master.failed" "@@server_uuid"

  local_stat : String → MgrStatus → List Row → MgrStatus
  local_stat id st [] = st
  local_stat id st (r ∷ rs) =
      local_stat id
        (if str_eq (field "MEMBER_ID" r) id
          then record { role = field "MEMBER_ROLE" r; member_state = field "MEMBER_STATE" r }
          else st)
        rs

  abbrev pub only_state : MgrStatus → List Row → MgrStatus
  only_state st [] = record st { member_state = "OFFLINE" }
  only_state st (r ∷ []) =
      if is_empty st.member_state then record st { member_state = field "MEMBER_STATE" r } else st
  only_state st (r ∷ q ∷ rs) = st

  -- `GetLocalMGRStat` of Mysql80.
  unfoldable pub get_local_mgr_stat : M MgrStatus
  unfolding local_stat
  get_local_mgr_stat = get_server_id >>= λ id. get_mgr_stats >>= λ rows.
      return (
        only_state (local_stat id (record { role = "UNKNOWN"; member_state = "UNKNOWN" }) rows)
          rows)

  -- `WaitApplyRelayLog`: `retry` rounds, with a pause between them. The error of a round does not
  -- reach the text at the end, which names the outer variable.
  unfoldable pub wait_apply_relay_log : ℕ → M (Unit {0})
  wait_apply_relay_log zero = fail "wait.until.after.gtid.failed[<nil>]"
  wait_apply_relay_log (suc n) =
      let rest = wait_apply_relay_log n in attempt get_mgr_gtid >>= next_round rest

  -- `ChangeMasterTo`.
  unfoldable pub change_master_to : Repl → M (Unit {0})
  change_master_to p = run_all s (source_commands p)

  -- `MGRChangeMasterTo`.
  unfoldable pub mgr_change_master_to : Repl → M (Unit {0})
  mgr_change_master_to p = run_all s (rejoin_commands p)

  -- `groupReplicationLocalAddress`.
  unfoldable pub local_address : M String
  local_address = ask s Query.local_address >>= λ rows.
      of_first (fail "group_replication_local_address.not.found")
        (λ r. return (field "@@GLOBAL.group_replication_local_address" r)) rows

  -- `ChangeToMaster`.
  unfoldable pub change_to_master : Bool → Repl → M (Unit {0})
  unfolding live_members local_address
  change_to_master mgr p =
      if mgr
      then (get_mgr_stats >>= λ rows.
          if live_members rows == 1
          then (local_address >>= λ addr.
              run_all s (Statement.force_members addr ∷ build_group p addr))
          else run_all s (build_group p ""))
      else run_all s (Statement.stop_slave ∷ Statement.reset_slave_all ∷ [])

  -- `Ping`: the row of the slave has the file that is applied.
  unfoldable pub ping_slave : M String
  ping_slave =
      ask s Query.slave_status >>= λ rows. return (of_first "" (field "Relay_Master_Log_File") rows)

  -- `CheckUserExists`.
  unfoldable pub check_user_exists : String → String → M Bool
  check_user_exists u h =
      ask s (Query.user_exists u h) >>= λ rows. return (of_first false (λ _. true) rows)

  -- `CreateReplUserWithoutBinlog`.
  unfoldable pub create_repl_user_without_binlog : String → String → M (Unit {0})
  create_repl_user_without_binlog u p = run_all s (
      Statement.sql_log_bin false
      ∷ Statement.open_read_only
      ∷ Statement.create_repl_user u p
      ∷ Statement.grant_replication u
      ∷ Statement.close_super_read_only
      ∷ Statement.sql_log_bin true
      ∷ [])
