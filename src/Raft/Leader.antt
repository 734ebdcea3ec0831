-- ===== src/Raft/Leader.antt =====
-- internal/election/raft/leader.go: the handlers of requests and heartbeat answers, and the
-- transition to FOLLOWER.
pub mod Settings
pub mod Loop
pub mod Requests
pub mod Purge
use Prim.Native.String.{compare}
use Prim.Native.Nat.{Ordering}
use neoha.Common.{
  ℕ, ◌+◌, String, Bool, true, false, Option, none, some, List, [], ◌∷◌, ◌++◌, contains, ◌&&◌, ◌==◌,
  not, str_eq, if◌then◌else◌, ltb, leb,
}
use neoha.Raft.Wire.{State, Request, Response, RetCode, error_invalid_view_id, is_mgr}
use neoha.Raft.State.{
  Raft, Stats, Db, DbCall, call, answer, check_request, set_state, update_view, get_members,
  no_leader, u64,
}
use neoha.Raft.Database.{demote_read_only, promotable}
use neoha.Raft.Passive.{is_positive, view_diff}

-- `purgeBinlogStop` and `checkGTIDStop`, with `checkSemiSyncStop` under semi-sync.
abbrev pub stop_workers : Raft → Raft
stop_workers r = record r {
  relay_master_log_file = "";
  next_purge_binlog = "";
  workers = false;
  semi_sync_worker = is_mgr r.conf.repl_mode && r.semi_sync_worker;
}

-- The database side of `degradeToFollower`; its errors are only logged.
unfoldable pub demote_leader : Raft → Raft
demote_leader r =
    let d = demote_read_only r in
    if r.conf.delegate_db_apply
    then r
    else if is_mgr r.conf.repl_mode
    then call DbCall.stop_mgr d
    else d

unfoldable pub degrade_to_follower : Raft → Raft
degrade_to_follower r =
    let r' = stop_workers (demote_leader r) in
    record (set_state State.follower r') {
      is_degrade_to_follower = true;
      stats = record (r'.stats) { leader_degrades = u64 (r'.stats.leader_degrades + 1) };
    }

abbrev got_heartbeat : Raft → Raft
got_heartbeat r = record r {
  stats = record (r.stats) {
    leader_get_heartbeat_requests = u64 (r.stats.leader_get_heartbeat_requests + 1);
  };
}

abbrev got_vote_request : Raft → Raft
got_vote_request r = record r {
  stats = record (r.stats) {
    leader_get_vote_requests = u64 (r.stats.leader_get_vote_requests + 1);
  };
}

-- `processHeartbeatRequest`: an equal view degrades too.
unfoldable pub process_heartbeat : Request → Raft → Response × Raft
process_heartbeat q r =
    let rsp = answer RetCode.ok r in
    let r' = got_heartbeat r in
    if not (check_request r q)
    then (record rsp { ret_code = RetCode.error_invalid_request }, r')
    else if is_positive (view_diff r q)
    then (record rsp { leader = r.leader; ret_code = RetCode.error_invalid_view_id }, r')
    else (rsp, degrade_to_follower r')

-- Checks 3 and 4 of processRequestVoteRequest.
yield_to : Request → Response → Raft → Response × Raft
yield_to q rsp r =
    let r' =
      if ltb r.meta.view_id q.view_id
      then degrade_to_follower (update_view q.view_id no_leader r)
      else r in
    (rsp, record r' { voted_for = q.from })

-- Check 2, and those after it.
yield_by_gtid : Db → Request → Response → Raft → Response × Raft
unfolding yield_to
yield_by_gtid db q rsp r = elim (db.gtid_greater_than q.gtid) [
  | none ↦ (record rsp { ret_code = RetCode.error_mysql_down }, r)
  | some (greater, mine) ↦
      let rsp' = record rsp { gtid = mine } in
      let (able, r') = if greater then promotable db r else (false, r) in
      if able
      then (record rsp' { ret_code = RetCode.error_invalid_gtid }, r')
      else yield_to q rsp' r'
]

-- `processRequestVoteRequest`.
unfoldable pub process_request_vote : Db → Request → Raft → Response × Raft
unfolding yield_by_gtid
process_request_vote db q r =
    let rsp = answer RetCode.ok r in
    let r' = got_vote_request r in
    if not (check_request r q)
    then (record rsp { ret_code = RetCode.error_invalid_request }, r')
    else if leb q.view_id r.meta.view_id
    then (record rsp { ret_code = RetCode.error_invalid_view_id }, r')
    else yield_by_gtid db q rsp r'

-- The smaller binlog name; the empty one stands for "none yet".
unfoldable pub smaller_binlog : String → String → String
smaller_binlog old new =
    if str_eq old "" then new else elim (compare old new) [ Ordering.gt ↦ new | _ ↦ old ]

-- An OK answer to a heartbeat: `ack` and `mgr` are `ackGranted` and `mgrCnt`.
acknowledge : Response → ℕ → ℕ → Raft → ℕ × ℕ × Raft
acknowledge rsp ack mgr r =
    let ack' = if str_eq rsp.state "IDLE" then ack else ack + 1 in
    let smallest = smaller_binlog r.relay_master_log_file rsp.relay_master_log_file in
    let joined = is_mgr r.conf.repl_mode && str_eq rsp.cmt_state "CmtOK" in
    (
      ack',
      if joined then mgr + 1 else mgr,
      record r {
        relay_master_log_file = smallest;
        next_purge_binlog = if ack' == get_members r then smallest else r.next_purge_binlog;
      },
    )

-- `processHeartbeatResponse`.
unfoldable pub process_heartbeat_response : Response → ℕ → ℕ → Raft → ℕ × ℕ × Raft
unfolding acknowledge
process_heartbeat_response rsp ack mgr r = elim rsp.ret_code [
  | RetCode.ok ↦ acknowledge rsp ack mgr r
  | error_invalid_view_id ↦ (ack, mgr, degrade_to_follower r)
  | _ ↦ (ack, mgr, r)
]

-- `allPeers := r.peers` names the same map, so the idle peers stay in it.
merge_peers : List String → List String → List String
merge_peers ps [] = ps
merge_peers ps (k ∷ ks) = merge_peers (if contains k ps then ps else ps ++ k ∷ []) ks

-- `sendHeartbeat`, up to the calls of the peers: whether the database counts as down.
unfoldable pub send_heartbeat : Db → Raft → Bool × Raft
unfolding merge_peers
send_heartbeat db r =
    if db.is_dead
    then (not db.should_defer_failover, r)
    else (false, record r { peers = merge_peers r.peers r.idle_peers })
