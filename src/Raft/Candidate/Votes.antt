-- ===== src/Raft/Candidate/Votes.antt =====
-- The count of votes in internal/election/raft/candidate.go: processRequestVoteResponse and the
-- local variables of `Loop`.
pub mod Follow
pub mod Majority
pub mod Meeting
use neoha.Common.{ℕ, ◌+◌, Bool, true, false, ◌&&◌, ◌==◌, str_eq, if◌then◌else◌, leb}
use neoha.Raft.Wire.{
  Response, RetCode, ok, error_mysql_down, error_invalid_gtid, error_invalid_view_id,
  error_mgr_already_running_ok, is_mgr,
}
use neoha.Raft.State.{Raft, get_members, get_quorums, update_view, no_leader}
use neoha.Raft.Candidate.{degrade_to_follower, upgrade_to_leader, open_view}

-- `voteGranted` and `switchMaster`.
pub record Ballot : Type 0 where
  pub votes : ℕ
  pub switch_master : Bool

abbrev pub first_ballot : Ballot
first_ballot = record { votes = 1; switch_master = false }

abbrev grant : Ballot → Ballot
grant b = record b { votes = b.votes + 1 }

-- ErrorMySQLDown: a vote under group replication that once had a quorum; with two members the
-- first such answer only arms the switch.
mysql_down : Raft → Ballot → Ballot
mysql_down r b =
    if is_mgr r.conf.repl_mode && r.mgr_cluster_ever_ok
    then grant b
    else if leb 3 (get_members r)
    then b
    else if b.switch_master
    then grant b
    else record b { switch_master = true }

count_vote : RetCode → Response → Ballot → Raft → Ballot × Raft
unfolding mysql_down
count_vote ok rsp b r = (if str_eq rsp.state "IDLE" then b else grant b, r)
count_vote error_invalid_view_id rsp b r =
    (b, degrade_to_follower (update_view rsp.view_id no_leader r))
count_vote error_invalid_gtid rsp b r = (b, degrade_to_follower r)
count_vote error_mysql_down rsp b r = (mysql_down r b, r)
count_vote error_mgr_already_running_ok rsp b r = (b, degrade_to_follower r)
count_vote _ rsp b r = (b, r)

-- `processRequestVoteResponse`.
unfoldable pub process_vote_response : Response → Ballot → Raft → Ballot × Raft
unfolding count_vote
process_vote_response rsp b r = count_vote rsp.ret_code rsp b r

-- A response in `Loop`: unanimous votes end the election.
unfoldable pub on_vote_response : Response → Ballot → Raft → Ballot × Raft
on_vote_response rsp b r =
    let (b', r') = process_vote_response rsp b r in
    (b', if b'.votes == get_members r' then upgrade_to_leader r' else r')

-- The tick of checkVotesTick: a majority ends the election.
unfoldable pub on_check_votes : Ballot → Raft → Raft
on_check_votes b r = if leb (get_quorums r) b.votes then upgrade_to_leader r else r

-- The tick of electionTick: another round. `switchMaster` is kept.
unfoldable pub on_election_tick : Ballot → Raft → Ballot × Raft
on_election_tick b r = (record b { votes = 1 }, open_view r)

-- `Loop` up to its `for`.
unfoldable pub start_election : Raft → Ballot × Raft
start_election r = (first_ballot, open_view r)
