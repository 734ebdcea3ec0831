-- ===== src/Raft/Database/Frame.antt =====
-- What the checks of the database change of the node.
use neoha.Common.{String, ◌≡◌, arith}
use neoha.Raft.State.{Raft, Db}
use neoha.Raft.Database.{is_mgr_cluster_status_ok, led_by_other, mgr_primary_promotable, promotable}

abbrev pub SameButFlag : Raft → Raft → Type 0
SameButFlag r s = s ≡ record r { mgr_cluster_ever_ok = s.mgr_cluster_ever_ok }

pub is_mgr_cluster_status_ok-SameButFlag :
    (db : Db) (r : Raft) → SameButFlag r (is_mgr_cluster_status_ok db r).2
unfolding is_mgr_cluster_status_ok
is_mgr_cluster_status_ok-SameButFlag db r = ground arith

pub led_by_other-SameButFlag :
    (db : Db) (uuid : String) (r : Raft) → SameButFlag r (led_by_other db uuid r).1
unfolding led_by_other
led_by_other-SameButFlag db uuid r = is_mgr_cluster_status_ok-SameButFlag db r

mgr_primary_promotable-SameButFlag :
    (db : Db) (r : Raft) → SameButFlag r (mgr_primary_promotable db r).1
unfolding mgr_primary_promotable
mgr_primary_promotable-SameButFlag db r = grind (arith, led_by_other-SameButFlag)

pub promotable-SameButFlag : (db : Db) (r : Raft) → SameButFlag r (promotable db r).1
unfolding promotable
promotable-SameButFlag db r = ground (arith, mgr_primary_promotable-SameButFlag db r)
