-- ===== src/Mysql/Examples.antt =====
-- A server that answers, one that does not, and what the operations do with them.
use neoha.Common.{
  Bool, true, false, ℕ, List, [], ◌∷◌, none, some, ◌≡◌, refl, String, if◌then◌else◌, Option, arith,
}
use neoha.Common.Result.{ok, err, Error}
use neoha.Raft.Wire.{ReplMode}
use neoha.Driver.{PrimaryRef}
use neoha.Common.Text.{pos}
use neoha.Mysql.{Server, Mysql, MysqlConfig, MysqlState, Access, Query, Row, Entry}
use neoha.Mysql.Applier.{apply_primary, apply_replica}
use neoha.Mysql.Applier.Closing.{apply_primary_access, apply_replica_access}
use neoha.Mysql.Applier.Traces.{access_of, set_to}
use neoha.Mysql.Ping.{ping, pings, should_defer_failover}
use neoha.Mysql.Ping.Deaths.{pings_fail, Failed}
use neoha.Mysql.Union.{Group, union_groups, union_set}
use neoha.Mysql.Union.Order.{covers}
use neoha.Mysql.Union.Members.{holds, holds-union_groups}
use neoha.Mysql.Union.Unique.{union_set_unique}
use neoha.Raft.Wire.{Gtid, empty_gtid}
use neoha.Common.{◌&&◌, length, ◌≤◌, ◌+◌, ◌*◌}
use neoha.Mysql.Compare.{semi_sync_greater, semi_sync_greater-asym}
use neoha.Mysql.Handler.{wait_apply_relay_log}
use neoha.Mysql.Handler.Waiting.{Waited, wait_apply-Waited}

abbrev pub config : ReplMode → MysqlConfig
config mode = record {
  repl_mode = mode;
  repl_host = "10.0.0.1";
  port = 3306;
  repl_user = "repl";
  repl_passwd = "secret";
  repl_gtid_purged = "";
  admit_defeat_ping_cnt = 2;
  failover_on_too_many_connections = false;
  master_sys_vars = "sync_binlog=1" ∷ [];
  slave_sys_vars = "sync_binlog=0" ∷ [];
}

abbrev pub node : ReplMode → Mysql
node mode = record {
  conf = config mode;
  state = MysqlState.alive;
  option = Access.unset;
  relay_master_log_file = "";
  mysql_downs = 0;
  downs = 0;
  dead_due_to_too_many_connections = false;
  connected = false;
  log = [];
}

abbrev answers : Query → List Row
answers Query.slave_status = (("Relay_Master_Log_File", "bin.000002") ∷ []) ∷ []
answers (Query.gtid_subtract a b) = (("RES", "") ∷ []) ∷ []
answers q = []

abbrev pub server : Server
server = record {
  connect = λ l. none;
  session = λ l. none;
  rows = λ l q. ok (answers q);
  exec = λ l c. none;
}

abbrev full : Error
full = Error.mysql_error 1040 "Too many connections"

abbrev full_server : Server
full_server = record server { rows = λ l q. err full }

abbrev primary : PrimaryRef
primary = record { member_id = "b"; host = "10.0.0.2"; port = pos 3306 }

apply_primary_access_example :
    access_of (apply_primary server (node ReplMode.semi_sync)).1
    ≡ set_to server false Access.read_write (access_of (node ReplMode.semi_sync))
unfolding apply_primary neoha.Mysql.Applier.apply_primary_semi_sync neoha.Mysql.Api.get_gtid
    neoha.Mysql.get_db neoha.Mysql.Handler.get_slave_gtid neoha.Common.str_eq
    neoha.Mysql.Handler.get_master_gtid neoha.Mysql.Api.wait_until_after_gtid
    neoha.Mysql.Api.change_to_master neoha.Mysql.Handler.change_to_master
    neoha.Mysql.Api.enable_semi_sync_master neoha.Mysql.Api.set_master_global_sys_var
    neoha.Mysql.Api.set_read_write neoha.Mysql.Handler.set_read_only
apply_primary_access_example = apply_primary_access server (node ReplMode.semi_sync) tt refl

apply_replica_access_example :
    access_of (apply_replica server primary (node ReplMode.mgr)).1
    ≡ set_to server true Access.read_only (access_of (node ReplMode.mgr))
unfolding apply_replica neoha.Mysql.Api.set_read_only neoha.Mysql.get_db
    neoha.Mysql.Handler.set_read_only neoha.Mysql.Api.mgr_change_master_to
    neoha.Mysql.Handler.mgr_change_master_to
apply_replica_access_example = apply_replica_access server primary (node ReplMode.mgr) tt refl

pings_fail_example :
    Failed full 3 (node ReplMode.semi_sync) (pings full_server 4 (node ReplMode.semi_sync))
pings_fail_example = pings_fail full_server full (λ l. refl) (λ l. refl) 3 (node ReplMode.semi_sync)

-- After four pings the server is given up, and the failover is deferred.
deferred_test : should_defer_failover (pings full_server 4 (node ReplMode.semi_sync)) ≡ true
unfolding should_defer_failover pings ping neoha.Mysql.get_db neoha.Mysql.Handler.ping_slave
    neoha.Mysql.Ping.is_too_many_connections
deferred_test = refl

abbrev two_sets : List Group
two_sets = ("a", (2, 2) ∷ (5, 7) ∷ []) ∷ ("b", (4, 4) ∷ []) ∷ ("a", (4, 6) ∷ []) ∷ []

holds-union_groups_example : holds "a" 4 (union_groups two_sets) ≡ holds "a" 4 two_sets
holds-union_groups_example = holds-union_groups "a" 4 two_sets

same_numbers : (n : ℕ) → covers n ((1, 3) ∷ (3, 5) ∷ []) ≡ covers n ((4, 5) ∷ (1, 4) ∷ [])
unfolding covers
same_numbers n = ground (arith)

union_set_unique_example : union_set ((1, 3) ∷ (3, 5) ∷ []) ≡ union_set ((4, 5) ∷ (1, 4) ∷ [])
unfolding neoha.Mysql.Union.Normal.proper
union_set_unique_example =
    union_set_unique ((1, 3) ∷ (3, 5) ∷ []) ((4, 5) ∷ (1, 4) ∷ []) refl refl same_numbers

abbrev at_position : ℕ → Gtid
at_position n = record empty_gtid { master_log_file = "bin.000002"; read_master_log_pos = n }

semi_sync_greater-asym_example :
    (semi_sync_greater (at_position 100) (at_position 50)
      && semi_sync_greater (at_position 50) (at_position 100))
    ≡ false
semi_sync_greater-asym_example = semi_sync_greater-asym (at_position 100) (at_position 50)

ahead_test : semi_sync_greater (at_position 100) (at_position 50) ≡ true
unfolding semi_sync_greater neoha.Common.Text.itoa
ahead_test = refl

wait_apply-Waited_example :
    Waited server 2 (node ReplMode.mgr) (wait_apply_relay_log server 2 (node ReplMode.mgr))
    × (length (wait_apply_relay_log server 2 (node ReplMode.mgr)).1.log ≤ 0 + 2 * 3)
wait_apply-Waited_example = wait_apply-Waited server 2 (node ReplMode.mgr)
