-- ===== src/Raft/Machine/Roles.antt =====
-- One iteration of each role's `Loop`: the `select` with its cases.
pub mod Casting
use neoha.Common.{ℕ, Option, none, some}
use neoha.Raft.Wire.{State, follower, candidate, leader, idle, invalid, learner, Request, Response}
use neoha.Raft.State.{Raft, Db}
use neoha.Raft.Passive.{process_ping}
use neoha.Raft.Idle
use neoha.Raft.Invalid
use neoha.Raft.Learner
use neoha.Raft.Follower
use neoha.Raft.Follower.Vote
use neoha.Raft.Candidate
use neoha.Raft.Candidate.Votes
use neoha.Raft.Leader
use neoha.Raft.Leader.Loop
pub use neoha.Raft.Candidate.Votes.{Ballot}
pub use neoha.Raft.Leader.Loop.{Term}

-- Where `stateLoop` stands.
pub data Phase : Type 0 where
  running : State → Phase  -- in the loop of a role
  leaving : State → Phase  -- waiting for the goroutines of a role that has ended
  ended : Phase

pub record Node : Type 0 where
  pub raft : Raft
  pub phase : Phase
  pub ballot : Ballot  -- Candidate.Loop
  pub term : Term  -- Leader.Loop
  pub pings : ℕ  -- `cnt` of startCheckBrainSplit

-- What a role's `select` may receive.
pub data Event : Type 0 where
  heartbeat request_vote : Request → Event
  ping : Event
  election_tick check_votes_tick heartbeat_tick : Event
  vote_response heartbeat_response : Response → Event
  fired : Event

abbrev Result : Type 0
Result = Option Response × Node

abbrev answered : Node → Response × Raft → Result
answered n (rsp, r) = (some rsp, record n { raft = r })

abbrev silent : Node → Raft → Result
silent n r = (none, record n { raft = r })

follower_event : Db → Event → Node → Result
follower_event db (heartbeat q) n = answered n (Follower.process_heartbeat db q n.raft)
follower_event db (request_vote q) n = answered n (Vote.process_request_vote db q n.raft)
follower_event db ping n = (some (process_ping n.raft), n)
follower_event db election_tick n = silent n (Follower.on_election_tick db n.raft)
follower_event db _ n = (none, n)

candidate_event : Db → Event → Node → Result
candidate_event db (heartbeat q) n = answered n (Candidate.process_heartbeat q n.raft)
candidate_event db (request_vote q) n = answered n (Candidate.process_request_vote db q n.raft)
candidate_event db ping n = (some (process_ping n.raft), n)
candidate_event db check_votes_tick n = silent n (Votes.on_check_votes n.ballot n.raft)
candidate_event db election_tick n =
    let (b, r) = Votes.on_election_tick n.ballot n.raft in (none, record n { ballot = b; raft = r })
candidate_event db (vote_response rsp) n =
    let (b, r) = Votes.on_vote_response rsp n.ballot n.raft in
    (none, record n { ballot = b; raft = r })
candidate_event db _ n = (none, n)

leader_event : Db → Event → Node → Result
leader_event db (heartbeat q) n = answered n (Leader.process_heartbeat q n.raft)
leader_event db (request_vote q) n = answered n (Leader.process_request_vote db q n.raft)
leader_event db ping n = (some (process_ping n.raft), n)
leader_event db heartbeat_tick n =
    let (t, r) = Loop.on_heartbeat_tick db n.term n.raft in (none, record n { term = t; raft = r })
leader_event db (heartbeat_response rsp) n =
    let (ack, mgr, r) =
      Leader.process_heartbeat_response rsp n.term.ack_granted n.term.mgr_cnt n.raft in
    (none, record n { term = record (n.term) { ack_granted = ack; mgr_cnt = mgr }; raft = r })
leader_event db _ n = (none, n)

idle_event : Db → Event → Node → Result
idle_event db (heartbeat q) n = answered n (Idle.process_heartbeat db q n.raft)
idle_event db (request_vote q) n = answered n (Idle.process_request_vote q n.raft)
idle_event db ping n = (some (process_ping n.raft), n)
idle_event db _ n = (none, n)

invalid_event : Db → Event → Node → Result
invalid_event db (heartbeat q) n = answered n (Invalid.process_heartbeat db q n.raft)
invalid_event db (request_vote q) n = answered n (Invalid.process_request_vote q n.raft)
invalid_event db ping n = (some (process_ping n.raft), n)
invalid_event db _ n = (none, n)

learner_event : Db → Event → Node → Result
learner_event db (heartbeat q) n = answered n (Learner.process_heartbeat db q n.raft)
learner_event db (request_vote q) n = answered n (Learner.process_request_vote q n.raft)
learner_event db ping n = (some (process_ping n.raft), n)
learner_event db _ n = (none, n)

unfoldable pub on_event : State → Db → Event → Node → Result
unfolding follower_event candidate_event leader_event idle_event invalid_event learner_event
on_event follower db e n = follower_event db e n
on_event candidate db e n = candidate_event db e n
on_event leader db e n = leader_event db e n
on_event idle db e n = idle_event db e n
on_event invalid db e n = invalid_event db e n
on_event learner db e n = learner_event db e n
on_event _ db e n = (none, n)
