-- ===== src/Raft/Ha.antt =====
-- internal/election/raft/rpc_ha.go, and Start and Stop of raft.go: the role changes that an operator
-- asks for. They run beside the loop of the role, which `loopFired` wakes up.
use neoha.Common.{◌+◌, none, some, if◌then◌else◌}
use neoha.Raft.Wire.{State, follower, candidate, leader, idle, invalid, learner, stopped, RetCode}
use neoha.Raft.State.{
  Raft, Db, DbCall, Job, Channel, spawn, call, set_leader, set_state, no_leader, u64,
}
use neoha.Raft.Database.{promotable}
use neoha.Raft.Candidate.{upgrade_to_leader}

-- How a call ends. The channel has no buffer: a call that `waits` has changed the state and replies
-- when the loop of the role takes the wake-up, or panics where `Stop` closes the channel before. A
-- send on a closed channel panics, and one on a channel that was not made never ends.
pub data Outcome : Type 0 where
  reply waits : RetCode → Raft → Outcome
  panic hangs : Raft → Outcome

abbrev loop_fired : Channel → RetCode → Raft → Outcome
loop_fired Channel.made code r = waits code r
loop_fired Channel.closed code r = panic r
loop_fired Channel.unmade code r = hangs r

-- `setState`, `loopFired`, then `RetCode = OK`.
abbrev move_to : State → Raft → Outcome
move_to s r = loop_fired r.fired RetCode.ok (set_state s r)

unfoldable pub ha_disable : Raft → Outcome
ha_disable r = elim r.state [
  | idle ↦ reply RetCode.ok r
  | stopped ↦ reply RetCode.error_invalid_request r
  | _ ↦ move_to idle r
]

unfoldable pub ha_set_learner : Raft → Outcome
ha_set_learner r = elim r.state [
  | stopped ↦ reply RetCode.error_invalid_request r
  | _ ↦ move_to learner r
]

unfoldable pub ha_enable : Raft → Outcome
ha_enable r = elim r.state [
  | idle ↦
      if r.conf.super_idle then reply RetCode.ok (set_leader no_leader r) else move_to follower r
  | learner ↦ move_to follower r
  | stopped ↦ reply RetCode.error_invalid_request r
  | _ ↦ reply RetCode.ok r
]

-- `IncCandidatePromotes`, which comes behind the wait.
unfoldable pub inc_candidate_promotes : Raft → Raft
inc_candidate_promotes r = record r {
  stats = record (r.stats) { candidate_promotes = u64 (r.stats.candidate_promotes + 1) };
}

abbrev then_count : Outcome → Outcome
then_count (waits c r) = waits c (spawn Job.candidate_promoted r)
then_count (reply c r) = reply c (inc_candidate_promotes r)
then_count (panic r) = panic r
then_count (hangs r) = hangs r

try_promote : Db → Raft → Outcome
try_promote db r =
    let (able, r') = promotable db r in
    let r'' = call DbCall.stop_slave_io_thread r' in
    if able
    then elim db.stop_slave_io_thread_error [
      | some e ↦ reply (RetCode.text e) r''
      | none ↦ then_count (move_to candidate r'')
    ]
    else reply RetCode.mysql_unpromotable r'

unfoldable pub ha_try_to_leader : Db → Raft → Outcome
unfolding try_promote
ha_try_to_leader db r = elim r.state [
  | leader ↦ reply RetCode.ok r
  | candidate ↦ reply RetCode.error_invalid_request r
  | idle ↦ reply RetCode.error_invalid_request r
  | invalid ↦ reply RetCode.error_invalid_request r
  | _ ↦ try_promote db r
]

-- `Start`, up to its loop: the role of the configuration, then the one of the command line.
unfoldable pub start : State → Raft → Raft
start init_role r =
    let r' = record (set_state (if r.conf.super_idle then idle else follower) r) {
      fired = Channel.made;
    } in
    elim init_role [
      | leader ↦ upgrade_to_leader r'
      | follower ↦ set_state follower r'
      | idle ↦ set_state idle r'
      | _ ↦ r'
    ]

unfoldable pub stop : Raft → Raft
stop r = elim r.state [ stopped ↦ r | _ ↦ record (set_state stopped r) { fired = Channel.closed } ]
