-- ===== src/Raft/Examples/Vote.antt =====
-- Votes and heartbeats in the cluster of three.
use neoha.Raft.Examples.Data.{quiet_db, node_a, ask_b, beat_c, running_a, leader_a, two_asks}
use neoha.Raft.Follower.Vote
use neoha.Raft.Follower
use neoha.Raft.Candidate
use neoha.Raft.Leader
use neoha.Raft.Follower.Vote.Laws.{follower_vote-Outcome}
use neoha.Raft.Follower.Vote.Laws as FollowerVote
use neoha.Raft.Follower.Heartbeat as FollowerHeartbeat
use neoha.Raft.Candidate.Requests as CandidateRequests
use neoha.Raft.Leader.Requests as LeaderRequests
use neoha.Common.{◌≡◌, refl, str_eq, arith, ◌∷◌, [], str_eq_iff}
use neoha.Raft.State.{update_view, Raft}
use neoha.Raft.Passive.Heartbeat.{IsNear, ReplicaOutcome}
use neoha.Raft.History
use neoha.Raft.History.Earlier.{Consistent}
use neoha.Raft.Idle
use neoha.Raft.Invalid
use neoha.Raft.Learner
use neoha.Raft.Machine.Step.Effects
use neoha.Raft.Machine.Step.{step, loop_event}
use neoha.Raft.Machine.Roles.{on_event, request_vote}
use neoha.Raft.Machine.Step.Casting.{Effect}
use neoha.Raft.Following.{following_heartbeats}
use neoha.Raft.Rivals.{rival_heartbeats}

follower_vote-Outcome_example :
    FollowerVote.Outcome ask_b node_a (Vote.process_request_vote quiet_db ask_b node_a)
follower_vote-Outcome_example = FollowerVote.follower_vote-Outcome quiet_db ask_b node_a

granted : (Vote.process_request_vote quiet_db ask_b node_a).1.voted_for ≡ "b"
unfolding Vote.process_request_vote str_eq update_view
granted = refl

candidate_vote-Outcome_example :
    CandidateRequests.Outcome ask_b node_a (Candidate.process_request_vote quiet_db ask_b node_a)
candidate_vote-Outcome_example = CandidateRequests.candidate_vote-Outcome quiet_db ask_b node_a

leader_vote-Outcome_example :
    LeaderRequests.Outcome ask_b leader_a (Leader.process_request_vote quiet_db ask_b leader_a)
leader_vote-Outcome_example = LeaderRequests.leader_vote-Outcome quiet_db ask_b leader_a

beat_c-IsNear : (r : Raft) → r.meta ≡ node_a.meta → IsNear beat_c r
beat_c-IsNear r e = record {
  view_fits = ground (arith, e);
  asked_view_fits = omega arith;
  epoch_fits = ground (arith, e);
  asked_epoch_fits = omega arith;
  view_above = ground (arith, e);
  view_below = ground (arith, e);
}

follower_heartbeat-Outcome_example :
    FollowerHeartbeat.Outcome beat_c node_a (Follower.process_heartbeat quiet_db beat_c node_a)
follower_heartbeat-Outcome_example =
    FollowerHeartbeat.follower_heartbeat-Outcome quiet_db beat_c node_a (beat_c-IsNear node_a refl)

two_asks-Regular : History.Regular two_asks (History.unvoted running_a)
unfolding str_eq
two_asks-Regular =
    (ground (arith, str_eq_iff "b" ""), tt, (ground (arith, str_eq_iff "c" ""), tt, tt))

vote_once_example : Consistent (History.record_run two_asks (History.unvoted running_a)).votes
vote_once_example = History.vote_once two_asks running_a refl two_asks-Regular

voted : (History.record_run two_asks (History.unvoted running_a)).votes ≡ (6, "b") ∷ []
unfolding History.record_run str_eq update_view History.record_step step on_event
    Vote.process_request_vote
voted = refl

ask_b-Usual : Effects.Usual (loop_event (request_vote ask_b)) node_a
unfolding str_eq
ask_b-Usual = ground (arith, str_eq_iff "b" "")

step-Effect_example :
    Effect running_a.phase
      (loop_event (request_vote ask_b))
      node_a
      (step quiet_db (loop_event (request_vote ask_b)) running_a)
step-Effect_example =
    Effects.step-Effect quiet_db (loop_event (request_vote ask_b)) running_a ask_b-Usual

following_heartbeats_example :
    ReplicaOutcome beat_c node_a (Idle.process_heartbeat quiet_db beat_c node_a)
    × ReplicaOutcome beat_c node_a (Invalid.process_heartbeat quiet_db beat_c node_a)
    × ReplicaOutcome beat_c node_a (Learner.process_heartbeat quiet_db beat_c node_a)
following_heartbeats_example =
    following_heartbeats quiet_db beat_c node_a (beat_c-IsNear node_a refl)

rival_heartbeats_example :
    CandidateRequests.Yields beat_c node_a (Candidate.process_heartbeat beat_c node_a)
    × LeaderRequests.Yields beat_c node_a (Leader.process_heartbeat beat_c node_a)
rival_heartbeats_example = rival_heartbeats beat_c node_a (beat_c-IsNear node_a refl)
