-- ===== src/Raft/Follower.antt =====
-- internal/election/raft/follower.go: the heartbeat handler, timeouts and the brain-split check.
-- The goroutine that joins the group is a `Job`, which `run_mgr_join` carries out in two steps.
pub mod Vote
pub mod Heartbeat
pub mod Join
pub mod Election
pub mod Pings
use text.Mathlib.Text.{find?}
use neoha.Common.{
  ℕ, ◌+◌, ◌<◌, String, Bool, true, false, List, [], ◌∷◌, Option, none, some, ◌||◌, ◌&&◌, not,
  str_eq, if◌then◌else◌, ltb,
}
use neoha.Raft.Wire.{
  State, follower, candidate, invalid, CmtState, cmt_unset, cmt_none, cmt_ok, cmt_changing,
  cmt_error, Gtid, Repl, MgrStatus, Request, Response, RetCode, empty_gtid, is_mgr, is_live_member,
  cmt_string,
}
use neoha.Raft.State.{
  Raft, Stats, Db, DbCall, Job, call, spawn, answer, check_request, set_leader, set_state, u64,
  get_members, get_quorums, no_leader,
}
use neoha.Raft.Members.{record_leader_database}
use neoha.Raft.Database.{demote_read_only, replication_promotable, is_mgr_cluster_status_ok}
use neoha.Raft.Passive.{
  follow_view, follow_epoch, is_positive, view_diff, epoch_diff, heartbeat_answer,
}

-- `degradeToInvalid`.
unfoldable pub degrade_to_invalid : Db → Gtid → Gtid → Raft → Raft
degrade_to_invalid db mine theirs r = elim r.peers [
  | [] ↦ r
  | _ ∷ _ ↦
      let r' = call DbCall.stop_slave_io_thread r in
      if db.check_gtid mine theirs then set_state invalid r' else r'
]

abbrev or_empty : Option Gtid → Gtid
or_empty none = empty_gtid
or_empty (some g) = g

abbrev is_running : Option Bool → Bool
is_running (some true) = true
is_running _ = false

abbrev is_down : Option Bool → Bool
is_down (some false) = true
is_down _ = false

-- The semi-sync branch: whether the replication source could be changed, and the state.
unfoldable pub follow_semi_sync : Db → Request → Raft → Bool × Raft
unfolding degrade_to_invalid
follow_semi_sync db q r =
    let quiet = call DbCall.start_slave (call DbCall.disable_semi_sync_master r) in
    let checked =
      if ltb 2 (get_members quiet)
      then degrade_to_invalid db (or_empty db.get_gtid) q.gtid quiet
      else quiet in
    let repl = record (q.repl) { repl_gtid_purged = db.repl_gtid_purged } in
    let moved = call (DbCall.change_master_to repl) checked in
    if str_eq quiet.leader q.from
    then (true, quiet)
    else if db.change_master_to_fails repl
    then (false, record moved { change_to_master_error = true })
    else (true, record moved { change_to_master_error = false; leader = q.from })

-- A member that has the leader already, or has no state of the change yet, watches its own server.
watch_mgr : Db → Raft → Raft
watch_mgr db r =
    let r' =
      if r.conf.delegate_db_apply && is_running db.is_mgr_running_ok
      then elim r.cmt_state [
        | cmt_ok ↦ r
        | _ ↦ record r { cmt_state = cmt_ok; mgr_cluster_ever_ok = true }
      ]
      else r in
    let r'' = if is_down db.is_mgr_running_ok then set_leader no_leader r' else r' in
    elim r.cmt_state [ cmt_changing ↦ r | _ ↦ r'' ]

-- A new leader that is ready: join its group, by the reconciler or by a goroutine.
join_mgr : Db → Request → Raft → Raft
join_mgr db q r =
    if r.conf.delegate_db_apply
    then if is_running db.is_mgr_running_ok
      then record r { cmt_state = cmt_ok; leader = q.from; mgr_cluster_ever_ok = true }
      else record r { cmt_state = cmt_none }
    else spawn (Job.mgr_join q.from q.repl) (record r { cmt_state = cmt_none })

-- The group-replication branch: the `CmtState` of the answer, and the state. The goroutine is
-- spawned before the answer is filled in, and runs after it. A state that was never set is none of
-- those that join, and goes on to the watch of the member, with the answer of before it.
unfoldable pub follow_mgr : Db → Request → Raft → String × Raft
unfolding watch_mgr join_mgr
follow_mgr db q r =
    let joined = join_mgr db q r in
    if str_eq r.leader q.from
    then (cmt_string r.cmt_state, watch_mgr db r)
    else if not (str_eq q.cmt_state "CmtOK")
    then (cmt_string r.cmt_state, r)
    else elim r.cmt_state [
      | cmt_unset ↦ (cmt_string cmt_unset, watch_mgr db r)
      | cmt_changing ↦ (cmt_string cmt_changing, r)
      | _ ↦ (cmt_string joined.cmt_state, joined)
    ]

-- `applyEpochView`, with the differences taken before the branch ran.
abbrev apply_epoch_view : Request → Raft → Raft → Raft
apply_epoch_view q before r =
    follow_epoch (epoch_diff before q) q (follow_view (view_diff before q) q r)

accept_heartbeat : Db → Request → Raft → Response × Raft
accept_heartbeat db q r =
    let rsp = heartbeat_answer db r in
    let recorded = demote_read_only (record_leader_database q.repl r) in
    if is_mgr r.conf.repl_mode
    then (let (cmt, r') = follow_mgr db q recorded in
        (record rsp { cmt_state = cmt }, apply_epoch_view q r r'))
    else if r.conf.delegate_db_apply
    then (rsp, apply_epoch_view q r (set_leader q.from recorded))
    else (let (done, r') = follow_semi_sync db q recorded in
        if done
        then (rsp, apply_epoch_view q r r')
        else (record rsp { ret_code = RetCode.error_change_master }, r'))

-- `processHeartbeatRequest`.
unfoldable pub process_heartbeat : Db → Request → Raft → Response × Raft
unfolding accept_heartbeat
process_heartbeat db q r =
    let rsp = heartbeat_answer db r in
    if not (check_request r q)
    then (record rsp { ret_code = RetCode.error_invalid_request }, r)
    else if is_positive (view_diff r q)
    then (record rsp { leader = r.leader; ret_code = RetCode.error_invalid_view_id }, r)
    else accept_heartbeat db q r

-- `upgradeToCandidate`.
unfoldable pub upgrade_to_candidate : Raft → Raft
upgrade_to_candidate r = elim r.peers [
  | [] ↦ r
  | _ ∷ _ ↦
      if r.change_to_master_error
      then r
      else record (set_state candidate (call DbCall.stop_slave_io_thread r)) {
        stats = record (r.stats) { candidate_promotes = u64 (r.stats.candidate_promotes + 1) };
      }
]

-- The election timeout of `Loop`.
unfoldable pub on_election_tick : Db → Raft → Raft
unfolding upgrade_to_candidate
on_election_tick db r =
    let (ok, _, r') =
      if is_mgr r.conf.repl_mode && r.mgr_cluster_ever_ok
      then is_mgr_cluster_status_ok db r
      else (true, "", r) in
    if not (replication_promotable db r)
    then r
    else if not ok
    then upgrade_to_candidate r'
    else if r'.is_brain_split
    then r'
    else upgrade_to_candidate r'

is_some_at : Option ℕ → Bool
is_some_at none = false
is_some_at (some _) = true

-- `strings.Contains("FOLLOWER CANDIDATE LEARNER", s)`: the empty text is contained as well.
unfoldable pub counts_as_peer : String → Bool
unfolding is_some_at
counts_as_peer s = is_some_at (find? "FOLLOWER CANDIDATE LEARNER" s)

abbrev pub is_ok : RetCode → Bool
is_ok RetCode.ok = true
is_ok _ = false

-- A ping response in startCheckBrainSplit: `cnt` is the number of members heard of in this round.
unfoldable pub on_ping_response : Response → ℕ → Raft → ℕ × Raft
unfolding counts_as_peer
on_ping_response rsp cnt r =
    let cnt' = if is_ok rsp.ret_code && counts_as_peer rsp.state then cnt + 1 else cnt in
    if is_ok rsp.ret_code && str_eq rsp.state "LEADER"
    then (cnt, r)
    else (cnt', record r { is_brain_split = ltb cnt' (get_quorums r) })
