-- ===== src/Raft/State.antt =====
-- The state that all roles share: internal/election/raft/raft.go and attr.go, with the counters of
-- stats.go. The database is reached through `Db`: its answers during one event, and the list of
-- the calls that were made to it, newest first.
pub mod Views
pub mod Quorums
use neoha.Common.{
  ℕ, String, Bool, List, [], ◌++◌, ◌∷◌, ◌+◌, ◌-◌, ◌/◌, ◌%◌, ◌^◌, Option, ltb, ◌==◌, if◌then◌else◌,
  length, contains,
}
use neoha.Raft.Wire.{
  State, CmtState, ReplMode, Gtid, Repl, MgrStatus, Request, Response, RetCode, state_string,
  new_response,
}

-- uint64 counters wrap.
abbrev pub u64 : ℕ → ℕ
u64 n = n % 2 ^ 64

-- What the database answers during one event. `none` stands for an error.
pub record Db : Type 0 where
  pub relay_master_log_file : String
  pub gtid_greater_than : Gtid → Option (Bool × Gtid)
  pub get_gtid : Option Gtid
  pub check_gtid : Gtid → Gtid → Bool
  pub mysql_promotable : Bool
  pub driver_promotable : Bool
  pub get_uuid : Option String
  pub get_mgr_stats : Option (List (String × String))  -- MEMBER_ID, MEMBER_STATE
  pub get_mgr_master_uuid : Option String
  pub is_mgr_running_ok : Option Bool
  pub get_local_mgr_stat : Option MgrStatus
  pub is_dead : Bool
  pub should_defer_failover : Bool
  pub repl_gtid_purged : String
  pub get_repl : Repl
  pub stop_slave_io_thread_error : Option String
  pub change_master_to_fails : Repl → Bool
  pub mgr_change_master_to_fails : Repl → Bool
  pub change_to_master_fails : Bool
  pub wait_fails : Bool  -- WaitApplyRelayLog, WaitUntilAfterGTID
  pub read_write_fails : Bool
  pub demote_fails : Bool
  pub purge_fails : Bool
  pub driver_writable : Option Bool  -- Status().Writable
  pub mgr_phase1_done : Option Bool

-- The calls that change the database.
pub data DbCall : Type 0 where
  demote set_read_only enable_read_write : DbCall
  stop_slave_io_thread start_slave disable_semi_sync_master enable_semi_sync_master : DbCall
  change_master_to mgr_change_master_to : Repl → DbCall
  change_to_master stop_mgr set_slave_global_sys_var set_master_global_sys_var : DbCall
  wait_apply_relay_log : DbCall
  wait_until_after_gtid purge_binlogs_to : String → DbCall
  set_semi_sync_master_timeout set_semi_wait_slave_count : ℕ → DbCall

-- What a goroutine of a role still has to do: the rest of its body, which runs between events.
pub data Job : Type 0 where
  mgr_join mgr_joining : (from : String) → Repl → Job  -- Follower.processHeartbeatRequest
  follower_settings : Job  -- Follower.setMySQLAsync
  semi_sync_wait semi_sync_change semi_sync_open : Job  -- Leader.prepareSettingsAsync
  mgr_wait mgr_change mgr_close : Job  -- Leader.prepareSettingsMGR
  mgr_delegated : Job  -- Leader.prepareSettingsMGRDelegated
  candidate_promoted : Job  -- HATryToLeader, behind its wake-up of the loop

-- The channel `fired`: nil up to `Start`, and closed by `Stop`.
pub data Channel : Type 0 where
  unmade made closed : Channel

pub record RaftConfig : Type 0 where
  pub super_idle : Bool
  pub admit_defeat_ht_cnt : ℕ
  pub purge_binlog_disabled : Bool
  pub repl_mode : ReplMode
  pub delegate_db_apply : Bool
  pub has_driver : Bool  -- dbDriver is not nil, and is a mysql driver
  pub semi_sync_timeout_for_two_nodes : ℕ

pub record RaftMeta : Type 0 where
  pub view_id : ℕ
  pub epoch_id : ℕ
  pub peers : List String
  pub idle_peers : List String

pub record Stats : Type 0 where
  pub leader_promotes : ℕ
  pub leader_degrades : ℕ
  pub leader_get_heartbeat_requests : ℕ
  pub leader_get_vote_requests : ℕ
  pub leader_purge_binlogs : ℕ
  pub leader_purge_binlog_fails : ℕ
  pub less_heartbeat_acks : ℕ
  pub less_cmt_heartbeat_acks : ℕ
  pub candidate_promotes : ℕ

-- `Raft`, with the fields of `Follower` and `Leader` that outlive an event. The maps `peers` and
-- `idlePeers` are the lists of their keys: a `Peer` holds nothing but its endpoint and timeouts.
pub record Raft : Type 0 where
  pub id : String
  pub conf : RaftConfig
  pub state : State
  pub leader : String
  pub voted_for : String
  pub cmt_state : CmtState
  pub meta : RaftMeta
  pub peers : List String
  pub idle_peers : List String
  pub peers_json : Option (List String × List String)
  pub is_brain_split : Bool
  pub mgr_cluster_ever_ok : Bool
  pub skip_purge_binlog : Bool
  pub skip_check_semi_sync : Bool
  pub leader_db_host : String
  pub leader_db_port : ℕ
  pub gtid : Gtid
  pub stats : Stats
  pub change_to_master_error : Bool  -- Follower
  pub relay_master_log_file : String  -- Leader
  pub next_purge_binlog : String
  pub is_degrade_to_follower : Bool
  pub is_read_only : Bool
  pub workers : Bool  -- the tickers of purgeBinlog and checkGTID run
  pub semi_sync_worker : Bool
  pub fired : Channel
  pub calls : List DbCall
  pub jobs : List Job  -- oldest first

abbrev pub no_vote : String
no_vote = ""

abbrev pub no_leader : String
no_leader = ""

-- One more call to the database.
abbrev pub call : DbCall → Raft → Raft
call c r = record r { calls = c ∷ r.calls }

-- `go func() { … }()`.
abbrev pub spawn : Job → Raft → Raft
spawn j r = record r { jobs = r.jobs ++ j ∷ [] }

abbrev pub set_leader : String → Raft → Raft
set_leader l r = record r { leader = l }

unfoldable pub set_state : State → Raft → Raft
set_state s r = record (set_leader no_leader r) { state = s }

unfoldable pub get_members : Raft → ℕ
get_members r = length r.meta.peers

unfoldable pub get_quorums : Raft → ℕ
get_quorums r = length r.meta.peers / 2 + 1

abbrev pub inc_view_id : Raft → Raft
inc_view_id r = record r { meta = record (r.meta) { view_id = u64 (r.meta.view_id + 1) } }

abbrev pub inc_epoch_id : Raft → Raft
inc_epoch_id r = record r { meta = record (r.meta) { epoch_id = u64 (r.meta.epoch_id + 1) } }

unfoldable pub update_view : ℕ → String → Raft → Raft
update_view v l r = record r {
  leader = l;
  voted_for = no_vote;
  meta = record (r.meta) { view_id = v };
}

-- Whether the sender is a key of the map `peers`.
abbrev pub check_request : Raft → Request → Bool
check_request r q = contains q.from r.peers

-- The part of a response that every handler fills in first.
abbrev pub answer : RetCode → Raft → Response
answer code r = record (new_response code) {
  from = r.id;
  view_id = r.meta.view_id;
  epoch_id = r.meta.epoch_id;
  state = state_string r.state;
}

-- The sign of `(int)(a - b)` at two uint64 values: the difference wraps, and is read as an int64.
pub data Sign : Type 0 where
  negative zero_sign positive : Sign

unfoldable pub int_diff : ℕ → ℕ → Sign
int_diff a b =
    let d = u64 (a + 2 ^ 64 - b) in
    if d == 0 then zero_sign else if ltb d (2 ^ 63) then positive else negative
