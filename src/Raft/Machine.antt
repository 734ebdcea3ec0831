-- ===== src/Raft/Machine.antt =====
-- The state loop of internal/election/raft/raft.go, with the role loops of follower.go,
-- candidate.go, leader.go, idle.go, invalid.go and learner.go: which loop runs, its local variables,
-- and what each event does in it. A loop tests the state after each event; if it has left the
-- role, the loop ends by its exit code, waits for its goroutines, and the next role starts.
-- Requests of an operator, tickers and goroutines act on the state between two such events.
pub mod Roles
pub mod Step
