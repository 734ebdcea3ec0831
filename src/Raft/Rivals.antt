-- ===== src/Raft/Rivals.antt =====
-- Heartbeats of another leader, in the roles of candidate.go and leader.go.
use neoha.Raft.Candidate
use neoha.Raft.Leader
use neoha.Raft.Candidate.Requests as CandidateRequests
use neoha.Raft.Leader.Requests as LeaderRequests
use neoha.Raft.Passive.Heartbeat.{IsNear}
use neoha.Raft.State.{Raft}
use neoha.Raft.Wire.{Request}

-- At a heartbeat with counters near its own, a candidate and a leader that answer OK know the
-- sender and were in no later view; the candidate then differs only in that it is a follower of
-- nobody, and the leader has stepped down. A stranger or a sender in an older view changes
-- nothing of the candidate, and of the leader only that it is counted.
pub rival_heartbeats :
    (q : Request) (r : Raft)
    → IsNear q r
    → CandidateRequests.Yields q r (Candidate.process_heartbeat q r)
      × LeaderRequests.Yields q r (Leader.process_heartbeat q r)
rival_heartbeats q r near = (
  CandidateRequests.candidate_heartbeat-Yields q r near,
  LeaderRequests.leader_heartbeat-Yields q r near,
)
