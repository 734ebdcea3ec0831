-- ===== src/Raft/Candidate/Votes/Follow.antt =====
-- What the answers to its requests do to a candidate (internal/election/raft/candidate.go).
use neoha.Raft.Candidate.Votes.{Ballot, process_vote_response, on_vote_response, on_check_votes}
use neoha.Raft.Candidate.{upgrade_to_leader, open_view}
use neoha.Raft.Passive.Heartbeat.{VoteStands}
use neoha.Raft.State.{update_view, set_state, Raft}
use neoha.Raft.Wire.{Response, error_invalid_view_id, candidate}
use neoha.Common.{◌+◌, ◌≡◌, arith, ◌⊎◌, ◌≢◌, ◌<◌, ◌^◌}

-- The view of a refusal for a stale view is taken over, whatever it is.
abbrev pub TakesView : Response → Raft → Raft → Type 0
TakesView rsp r s =
    (rsp.ret_code ≡ error_invalid_view_id) × (s.meta.view_id ≡ rsp.view_id) × (s.voted_for ≡ "")

pub on_vote_response_view :
    (rsp : Response) (b : Ballot) (r : Raft)
    → VoteStands r (on_vote_response rsp b r).1
      ⊎ (TakesView rsp r (on_vote_response rsp b r).1
          × ((on_vote_response rsp b r).1.state ≢ candidate))
unfolding on_vote_response process_vote_response upgrade_to_leader update_view set_state
on_vote_response_view rsp b r = ground arith

pub on_check_votes-VoteStands : (b : Ballot) (r : Raft) → VoteStands r (on_check_votes b r)
unfolding on_check_votes upgrade_to_leader set_state
on_check_votes-VoteStands b r = ground arith

-- A new round is a new view, without a vote.
pub open_view_next :
    (r : Raft)
    → r.meta.view_id + 2 < 2 ^ 64
    → ((open_view r).meta.view_id ≡ r.meta.view_id + 1) × ((open_view r).voted_for ≡ "")
unfolding open_view
open_view_next r h = ground arith
