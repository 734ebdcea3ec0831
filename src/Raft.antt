-- ===== src/Raft.antt =====
-- internal/election/raft: the election state machine of a node.
pub mod Wire
pub mod State
pub mod Members
pub mod Database
pub mod Passive
pub mod Idle
pub mod Invalid
pub mod Learner
pub mod Following
pub mod Follower
pub mod Peer
pub mod Candidate
pub mod Leader
pub mod Rivals
pub mod Ha
pub mod Machine
pub mod History
pub mod Examples
