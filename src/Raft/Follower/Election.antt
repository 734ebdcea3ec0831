-- ===== src/Raft/Follower/Election.antt =====
-- When a follower stands for election: the election timeout and the brain-split check of
-- internal/election/raft/follower.go.
use neoha.Raft.Follower.{on_election_tick, upgrade_to_candidate}
use neoha.Raft.Database.{replication_promotable, is_mgr_cluster_status_ok}
use neoha.Raft.Database.Frame.{is_mgr_cluster_status_ok-SameButFlag}
use neoha.Raft.State.{Raft, Db, set_state}
use neoha.Raft.Wire.{follower, candidate, is_mgr}
use neoha.Common.{◌≡◌, true, false, ◌≢◌, [], arith, ◌⊎◌, ap}

-- What holds where a node may stand.
pub record MayStand (db : Db) (r : Raft) : Type 0 where
  pub promotable : replication_promotable db r ≡ true
  pub in_cluster : r.peers ≢ []
  pub replicates : r.change_to_master_error ≡ false
  pub heard :
      (r.is_brain_split ≡ false)
      ⊎ ((is_mgr r.conf.repl_mode ≡ true)
          × (r.mgr_cluster_ever_ok ≡ true)
          × ((is_mgr_cluster_status_ok db r).0 ≡ false))

-- A follower that stands for election at its timeout is promotable, has peers, has no failed
-- change of source, and either is in no brain split or is in a group that was healthy once and
-- is not now.
pub on_election_tick-MayStand :
    (db : Db) (r : Raft)
    → r.state ≡ follower
    → (on_election_tick db r).state ≡ candidate
    → MayStand db r
unfolding on_election_tick upgrade_to_candidate set_state
on_election_tick-MayStand db r f c =
    let same = is_mgr_cluster_status_ok-SameButFlag db r in
    let s = ap (λ (s : Raft). s.state) same in
    let p = ap (λ (s : Raft). s.peers) same in
    let m = ap (λ (s : Raft). s.change_to_master_error) same in
    let b = ap (λ (s : Raft). s.is_brain_split) same in ground (arith, s, p, m, b)
