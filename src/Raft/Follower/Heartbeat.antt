-- ===== src/Raft/Follower/Heartbeat.antt =====
-- What the heartbeat handler of internal/election/raft/follower.go promises.
use neoha.Raft.Follower.{
  process_heartbeat, accept_heartbeat, follow_semi_sync, follow_mgr, degrade_to_invalid, Db,
  Request, set_state, demote_read_only, record_leader_database, Raft, Gtid, Response, is_positive,
  view_diff, set_leader,
}
use neoha.Raft.Passive.Heartbeat.{Keeps, IsNear, follow-Followed, Followed}
use neoha.Raft.State.{set_state}
use neoha.Raft.Members.{record_leader_database}
use neoha.Common.{arith, contains, ◌≡◌, true, false, ◌<◌}
use neoha.Raft.Database.{demote_read_only}
use neoha.Raft.State.Views.{int_diff_near}
use neoha.Raft.Wire.{RetCode}

degrade_to_invalid-Keeps : (db : Db) (g h : Gtid) (r : Raft) → Keeps r (degrade_to_invalid db g h r)
unfolding degrade_to_invalid set_state
degrade_to_invalid-Keeps db g h r = ground arith

follow_semi_sync-Keeps : (db : Db) (q : Request) (r : Raft) → Keeps r (follow_semi_sync db q r).1
unfolding follow_semi_sync set_state
follow_semi_sync-Keeps db q r = ground arith

follow_mgr-Keeps : (db : Db) (q : Request) (r : Raft) → Keeps r (follow_mgr db q r).1
unfolding follow_mgr
follow_mgr-Keeps db q r = ground arith

recorded-Keeps :
    (q : Request) (r : Raft) → Keeps r (demote_read_only (record_leader_database q.repl r))
unfolding demote_read_only record_leader_database
recorded-Keeps q r = ground arith

-- Each answer of the handler, and what it says of the node.
abbrev pub Outcome : Request → Raft → Response × Raft → Type 0
Outcome q r (rsp, s) = elim rsp.ret_code [
  | RetCode.ok ↦ (contains q.from r.peers ≡ true) × Followed q r s
  | RetCode.error_change_master ↦ (contains q.from r.peers ≡ true) × Keeps r s
  | RetCode.error_invalid_request ↦ (contains q.from r.peers ≡ false) × (s ≡ r)
  | RetCode.error_invalid_view_id ↦ (q.view_id < r.meta.view_id) × (s ≡ r) × (rsp.leader ≡ r.leader)
  | _ ↦ ⊥
]

accept_heartbeat-Outcome :
    (db : Db) (q : Request) (r : Raft)
    → IsNear q r
    → contains q.from r.peers ≡ true
    → is_positive (view_diff r q) ≡ false
    → Outcome q r (accept_heartbeat db q r)
unfolding accept_heartbeat
accept_heartbeat-Outcome db q r near c p =
    let rec = demote_read_only (record_leader_database q.repl r) in
    let k = recorded-Keeps q r in
    ground (
      arith,
      k,
      follow_mgr-Keeps db q rec,
      follow_semi_sync-Keeps db q rec,
      follow-Followed q r (follow_mgr db q rec).1 near,
      follow-Followed q r (follow_semi_sync db q rec).1 near,
      follow-Followed q r (set_leader q.from rec) near,
    )

-- At a heartbeat with counters near its own, a follower that answers OK knows the sender, was in
-- no later view, and is now in the view and the epoch of the sender, its vote standing while the
-- view does. The answer that the source could not be changed leaves view, epoch, members and
-- vote. A stranger or a sender in an older view changes nothing.
pub follower_heartbeat-Outcome :
    (db : Db) (q : Request) (r : Raft) → IsNear q r → Outcome q r (process_heartbeat db q r)
unfolding process_heartbeat
follower_heartbeat-Outcome db q r near = ground (
  arith,
  accept_heartbeat-Outcome db q r near,
  int_diff_near r.meta.view_id q.view_id near.view_fits near.asked_view_fits near.view_above
      near.view_below,
)
