-- ===== src/Raft/Machine/Roles/Casting.antt =====
-- What one iteration of a role's loop does to the vote and the view.
use neoha.Raft.Wire.{follower, candidate, leader, idle, invalid, learner}
use neoha.Raft.Machine.Roles.{
  Node, Event, heartbeat, request_vote, election_tick, check_votes_tick, heartbeat_tick,
  vote_response, heartbeat_response, follower_event, candidate_event, leader_event, idle_event,
  invalid_event, learner_event, on_event, Option, some,
}
use neoha.Raft.Passive.Heartbeat.{VoteStands, IsNear}
use neoha.Raft.Follower
use neoha.Raft.Idle
use neoha.Raft.Invalid
use neoha.Raft.Learner
use neoha.Raft.Follower.Heartbeat as FollowerHeartbeat
use neoha.Raft.Follower.Vote.Laws as FollowerVote
use neoha.Raft.Candidate.Requests as CandidateRequests
use neoha.Raft.Leader.Requests as LeaderRequests
use neoha.Raft.Candidate.Votes.{on_election_tick, Ballot}
use neoha.Raft.State.{set_state, Raft, Db}
use neoha.Raft.Database.Frame.{is_mgr_cluster_status_ok-SameButFlag}
use neoha.Raft.Leader.Loop.Rounds.{HasRoom, on_heartbeat_tick-VoteStands}
use neoha.Raft.Wire.{Response, RetCode, candidate, State}
use neoha.Common.{◌≡◌, ap, ◌≢◌, ◌+◌, arith, ◌⊎◌, inl, refl}
use neoha.Raft.Candidate.Votes.Follow.{
  open_view_next, TakesView, on_check_votes-VoteStands, on_vote_response_view,
}
use neoha.Raft.Follower.Vote.Laws.{IsGrant}
use neoha.Raft.Following.{learner_heartbeat, idle_heartbeat, invalid_heartbeat}

-- Messages as the members send them: a sender has a name, counters are close, no counter wraps.
abbrev pub Ordinary : Event → Raft → Type 0
Ordinary (heartbeat q) r = IsNear q r
Ordinary (request_vote q) r = q.from ≢ ""
Ordinary election_tick r = HasRoom r
Ordinary heartbeat_tick r = HasRoom r
Ordinary _ r = Unit

-- What a follower's or a leader's event may do to the vote and the view.
abbrev pub Voted : Event → Option Response → Raft → Raft → Type 0
Voted (request_vote q) (some rsp) r s = elim rsp.ret_code [
  | RetCode.ok ↦ IsGrant q r s
  | _ ↦ VoteStands r s
]
Voted _ _ r s = VoteStands r s

follower_tick-VoteStands : (db : Db) (r : Raft) → VoteStands r (Follower.on_election_tick db r)
unfolding Follower.on_election_tick set_state
follower_tick-VoteStands db r =
    let same = is_mgr_cluster_status_ok-SameButFlag db r in
    let m = ap (λ (s : Raft). s.meta) same in
    let v = ap (λ (s : Raft). s.voted_for) same in ground (arith, m, v)

follower_event-Voted :
    (db : Db) (e : Event) (n : Node)
    → Ordinary e n.raft
    → Voted e (follower_event db e n).0 n.raft (follower_event db e n).1.raft
unfolding follower_event
follower_event-Voted db (heartbeat q) n o =
    ground (arith, FollowerHeartbeat.follower_heartbeat-Outcome db q n.raft o)
follower_event-Voted db (request_vote q) n o =
    ground (arith, FollowerVote.follower_vote-Outcome db q n.raft)
follower_event-Voted db election_tick n o = follower_tick-VoteStands db n.raft
follower_event-Voted db _ n o = inl (refl, refl)

leader_event-Voted :
    (db : Db) (e : Event) (n : Node)
    → Ordinary e n.raft
    → Voted e (leader_event db e n).0 n.raft (leader_event db e n).1.raft
unfolding leader_event
leader_event-Voted db (heartbeat q) n o =
    ground (arith, LeaderRequests.leader_heartbeat-Yields q n.raft o)
leader_event-Voted db (request_vote q) n o =
    ground (arith, LeaderRequests.leader_vote-Outcome db q n.raft)
leader_event-Voted db heartbeat_tick n o = on_heartbeat_tick-VoteStands db n.term n.raft o
leader_event-Voted db (heartbeat_response rsp) n o =
    LeaderRequests.process_heartbeat_response-VoteStands rsp n.term.ack_granted n.term.mgr_cnt
      n.raft
leader_event-Voted db _ n o = inl (refl, refl)

-- A candidate may besides take the view of a refusal, and open a view of its own.
abbrev pub VotedCandidate : Event → Option Response → Raft → Raft → Type 0
VotedCandidate (request_vote q) (some rsp) r s = elim rsp.ret_code [
  | RetCode.ok ↦ IsGrant q r s × (s.state ≡ candidate → ⊥)
  | _ ↦ VoteStands r s
]
VotedCandidate (vote_response rsp) _ r s =
    VoteStands r s ⊎ (TakesView rsp r s × (s.state ≢ candidate))
VotedCandidate election_tick _ r s = (s.meta.view_id ≡ r.meta.view_id + 1) × (s.voted_for ≡ "")
VotedCandidate _ _ r s = VoteStands r s

election_tick_lem :
    (b : Ballot) (r : Raft)
    → HasRoom r
    → ((on_election_tick b r).1.meta.view_id ≡ r.meta.view_id + 1)
      × ((on_election_tick b r).1.voted_for ≡ "")
unfolding on_election_tick
election_tick_lem b r h = open_view_next r h

candidate_event-Voted :
    (db : Db) (e : Event) (n : Node)
    → Ordinary e n.raft
    → VotedCandidate e (candidate_event db e n).0 n.raft (candidate_event db e n).1.raft
unfolding candidate_event
candidate_event-Voted db (heartbeat q) n o =
    ground (arith, CandidateRequests.candidate_heartbeat-Yields q n.raft o)
candidate_event-Voted db (request_vote q) n o =
    ground (arith, CandidateRequests.candidate_vote-Outcome db q n.raft)
candidate_event-Voted db election_tick n o = election_tick_lem n.ballot n.raft o
candidate_event-Voted db check_votes_tick n o = on_check_votes-VoteStands n.ballot n.raft
candidate_event-Voted db (vote_response rsp) n o = on_vote_response_view rsp n.ballot n.raft
candidate_event-Voted db _ n o = inl (refl, refl)

idle_event-VoteStands :
    (db : Db) (e : Event) (n : Node)
    → Ordinary e n.raft
    → VoteStands n.raft (idle_event db e n).1.raft
unfolding idle_event Idle.process_request_vote
idle_event-VoteStands db (heartbeat q) n o = ground (arith, idle_heartbeat db q n.raft o)
idle_event-VoteStands db (request_vote q) n o = inl (refl, refl)
idle_event-VoteStands db _ n o = inl (refl, refl)

invalid_event-VoteStands :
    (db : Db) (e : Event) (n : Node)
    → Ordinary e n.raft
    → VoteStands n.raft (invalid_event db e n).1.raft
unfolding invalid_event Invalid.process_request_vote
invalid_event-VoteStands db (heartbeat q) n o = ground (arith, invalid_heartbeat db q n.raft o)
invalid_event-VoteStands db (request_vote q) n o = inl (refl, refl)
invalid_event-VoteStands db _ n o = inl (refl, refl)

learner_event-VoteStands :
    (db : Db) (e : Event) (n : Node)
    → Ordinary e n.raft
    → VoteStands n.raft (learner_event db e n).1.raft
unfolding learner_event Learner.process_request_vote
learner_event-VoteStands db (heartbeat q) n o = ground (arith, learner_heartbeat db q n.raft o)
learner_event-VoteStands db (request_vote q) n o = inl (refl, refl)
learner_event-VoteStands db _ n o = inl (refl, refl)

-- What an iteration of the loop of a role may do to the vote and the view.
abbrev pub Cast : State → Event → Option Response → Raft → Raft → Type 0
Cast follower e rsp r s = Voted e rsp r s
Cast leader e rsp r s = Voted e rsp r s
Cast candidate e rsp r s = VotedCandidate e rsp r s
Cast _ e rsp r s = VoteStands r s

pub on_event-Cast :
    (l : State) (db : Db) (e : Event) (n : Node)
    → Ordinary e n.raft
    → Cast l e (on_event l db e n).0 n.raft (on_event l db e n).1.raft
unfolding on_event
on_event-Cast follower db e n o = follower_event-Voted db e n o
on_event-Cast candidate db e n o = candidate_event-Voted db e n o
on_event-Cast leader db e n o = leader_event-Voted db e n o
on_event-Cast idle db e n o = idle_event-VoteStands db e n o
on_event-Cast invalid db e n o = invalid_event-VoteStands db e n o
on_event-Cast learner db e n o = learner_event-VoteStands db e n o
on_event-Cast _ db e n o = inl (refl, refl)
