-- ===== src/Raft/Following.antt =====
-- Heartbeats in the roles of idle.go, invalid.go and learner.go.
use neoha.Raft.Passive.Heartbeat.{
  ReplicaOutcome, replica_heartbeat-ReplicaOutcome, IsNear, Keeps, follow-Followed,
}
use neoha.Raft.Idle
use neoha.Raft.Invalid
use neoha.Raft.Learner
use neoha.Raft.State.{Db, Raft, call, DbCall}
use neoha.Raft.Database.{demote_read_only}
use neoha.Raft.Wire.{Request, is_mgr}
use neoha.Common.{refl, if◌then◌else◌, arith, true, not}
use neoha.Raft.State.Views.{int_diff_near}

-- At a heartbeat with counters near its own, an idle node that answers OK knows the sender, and
-- is now in the view and the epoch of the sender, or was in a later view and is as it was. The
-- answer that the source could not be changed leaves view, epoch, members and vote, and a
-- stranger changes nothing.
pub idle_heartbeat :
    (db : Db) (q : Request) (r : Raft)
    → IsNear q r
    → ReplicaOutcome q r (Idle.process_heartbeat db q r)
unfolding Idle.process_heartbeat
idle_heartbeat db q r near =
    replica_heartbeat-ReplicaOutcome (not (is_mgr r.conf.repl_mode)) Idle.refuse_change db q r
      (λ rsp. refl) near

-- At a heartbeat with counters near its own, an invalid node that answers OK knows the sender,
-- and is now in the view and the epoch of the sender, or was in a later view and is as it was.
-- The answer that the source could not be changed leaves view, epoch, members and vote, and a
-- stranger changes nothing.
pub invalid_heartbeat :
    (db : Db) (q : Request) (r : Raft)
    → IsNear q r
    → ReplicaOutcome q r (Invalid.process_heartbeat db q r)
unfolding Invalid.process_heartbeat
invalid_heartbeat db q r near =
    replica_heartbeat-ReplicaOutcome true Invalid.refuse_change db q r (λ rsp. refl) near

quiet-Keeps :
    (r : Raft)
    → Keeps r (
        demote_read_only
          (if is_mgr r.conf.repl_mode then r else call DbCall.disable_semi_sync_master r))
unfolding demote_read_only
quiet-Keeps r = ground arith

-- At a heartbeat with counters near its own, a learner that answers OK knows the sender, and is
-- now in the view and the epoch of the sender, or was in a later view and is as it was. A
-- stranger changes nothing.
pub learner_heartbeat :
    (db : Db) (q : Request) (r : Raft)
    → IsNear q r
    → ReplicaOutcome q r (Learner.process_heartbeat db q r)
unfolding Learner.process_heartbeat
learner_heartbeat db q r near =
    let quiet =
      demote_read_only
        (if is_mgr r.conf.repl_mode then r else call DbCall.disable_semi_sync_master r) in
    ground (
      arith,
      quiet-Keeps r,
      follow-Followed q r quiet near,
      int_diff_near r.meta.view_id q.view_id near.view_fits near.asked_view_fits near.view_above
          near.view_below,
    )

-- At a heartbeat with counters near its own, an idle node, an invalid node and a learner that
-- answer OK know the sender, and are now in the view and the epoch of the sender, or were in a
-- later view and are as they were. The answer of the idle and of the invalid node that the
-- source could not be changed leaves view, epoch, members and vote, and a stranger changes
-- nothing.
pub following_heartbeats :
    (db : Db) (q : Request) (r : Raft)
    → IsNear q r
    → ReplicaOutcome q r (Idle.process_heartbeat db q r)
      × ReplicaOutcome q r (Invalid.process_heartbeat db q r)
      × ReplicaOutcome q r (Learner.process_heartbeat db q r)
following_heartbeats db q r near =
    (idle_heartbeat db q r near, invalid_heartbeat db q r near, learner_heartbeat db q r near)
