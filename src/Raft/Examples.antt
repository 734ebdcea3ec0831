-- ===== src/Raft/Examples.antt =====
-- Concrete nodes, databases and requests, with the theorems of the election layer at them and
-- runs of the definitions that can be followed in the source.
pub mod Data
mod Vote
mod Roles
