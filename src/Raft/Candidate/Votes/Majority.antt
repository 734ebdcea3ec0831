-- ===== src/Raft/Candidate/Votes/Majority.antt =====
-- What it takes to win an election in internal/election/raft/candidate.go.
use neoha.Raft.Candidate.Votes.{
  on_vote_response, on_check_votes, process_vote_response, count_vote, mysql_down, Ballot,
}
use neoha.Raft.Candidate.{upgrade_to_leader}
use neoha.Raft.State.{Raft, set_state, update_view, get_members, get_quorums}
use neoha.Raft.Wire.{leader, candidate, Response}
use neoha.Common.{◌≡◌, ◌≤◌, ◌<◌, arith, ◌+◌}

-- A candidate that has won: with the votes of a majority, as its own leader, with its view, its
-- epoch and its members as they were before.
pub record HasWon (b : Ballot) (r s : Raft) : Type 0 where
  pub majority : get_quorums r ≤ b.votes
  pub itself : s.leader ≡ r.id
  pub same_view : s.meta ≡ r.meta

response-Keeps :
    (rsp : Response) (b : Ballot) (r : Raft)
    → ((process_vote_response rsp b r).1.meta.peers ≡ r.meta.peers)
      × ((process_vote_response rsp b r).1.id ≡ r.id)
      × ((process_vote_response rsp b r).0.votes ≤ b.votes + 1)
      × ((process_vote_response rsp b r).0.votes ≡ b.votes + 1
          → (process_vote_response rsp b r).1 ≡ r)
unfolding process_vote_response count_vote mysql_down update_view set_state
response-Keeps rsp b r = ground arith

-- A candidate with fewer votes than members that becomes the leader at a vote response has the
-- votes of a majority, leads itself, and is in the view, the epoch and among the members that it
-- had before the response.
pub on_vote_response-HasWon :
    (rsp : Response) (b : Ballot) (r : Raft)
    → r.state ≡ candidate
    → b.votes < get_members r
    → (on_vote_response rsp b r).1.state ≡ leader
    → HasWon (on_vote_response rsp b r).0 r (on_vote_response rsp b r).1
unfolding on_vote_response upgrade_to_leader set_state get_quorums get_members process_vote_response
    count_vote mysql_down update_view
on_vote_response-HasWon rsp b r s m w = ground (arith, response-Keeps rsp b r)

-- A candidate that becomes the leader when the votes are checked has the votes of a majority,
-- leads itself, and keeps its view, its epoch and its members.
pub on_check_votes-HasWon :
    (b : Ballot) (r : Raft)
    → r.state ≡ candidate
    → (on_check_votes b r).state ≡ leader
    → HasWon b r (on_check_votes b r)
unfolding on_check_votes upgrade_to_leader set_state get_quorums
on_check_votes-HasWon b r s w = ground arith
