-- ===== src/Raft/Leader/Loop/Rounds.antt =====
-- What a round of the leader does to its vote and its view (internal/election/raft/leader.go).
use neoha.Raft.Database.{enable_read_write}
use neoha.Raft.Leader.Loop.{
  Term, on_heartbeat_tick, count_acks, bump_view, open_writes, watch_group, count_joined,
  judge_semi_sync, judge_mgr, next_round, check_down, update_view, send_heartbeat, Db,
  enable_read_write, Raft, degrade_to_follower, less_acks, less_cmt_acks, is_mgr_cluster_status_ok,
}
use neoha.Raft.Passive.Heartbeat.{VoteStands}
use neoha.Raft.State.{update_view}
use neoha.Raft.Database.Frame.{is_mgr_cluster_status_ok-SameButFlag}
use neoha.Common.{arith, ◌+◌, ◌≡◌, ap, ◌<◌, ◌^◌}
use neoha.Raft.Leader.Requests.{degrade_to_follower-HasSteppedDown}

-- Room for the two views that a round may skip.
abbrev pub HasRoom : Raft → Type 0
HasRoom r = r.meta.view_id + 2 < 2 ^ 64

abbrev Still : Raft → Raft → Type 0
Still r s = (s.meta ≡ r.meta) × (s.voted_for ≡ r.voted_for)

degrade-Still : (r : Raft) → Still r (degrade_to_follower r)
degrade-Still r = let h = degrade_to_follower-HasSteppedDown r in (h.meta_stands, h.vote_stands)

count_acks-Still : (t : Term) (r : Raft) → Still r (count_acks t r).2
unfolding count_acks
count_acks-Still t r = ground (arith, degrade-Still (less_acks r))

bump_view-VoteStands : (t : Term) (r : Raft) → HasRoom r → VoteStands r (bump_view t r).1
unfolding bump_view update_view
bump_view-VoteStands t r h = ground arith

open_writes-Still : (db : Db) (r : Raft) → Still r (open_writes db r)
unfolding open_writes enable_read_write
open_writes-Still db r = ground arith

watch_group-Still : (db : Db) (t : Term) (r : Raft) → Still r (watch_group db t r).2
unfolding watch_group
watch_group-Still db t r =
    let same = is_mgr_cluster_status_ok-SameButFlag db r in
    let m = ap (λ (s : Raft). s.meta) same in
    let v = ap (λ (s : Raft). s.voted_for) same in
    ground (arith, m, v, degrade-Still (is_mgr_cluster_status_ok db r).2)

count_joined-VoteStands :
    (db : Db) (t : Term) (r : Raft) → HasRoom r → VoteStands r (count_joined db t r).2
unfolding count_joined
count_joined-VoteStands db t r h =
    let opened = open_writes db r in
    let t' = record t { less_cmt_ht_acks = 0 } in
    let o = open_writes-Still db r in
    ground (
      arith,
      o,
      bump_view-VoteStands t' opened,
      watch_group-Still db (bump_view t' opened).0 (bump_view t' opened).1,
      degrade-Still (less_cmt_acks r),
    )

judge_mgr-VoteStands :
    (db : Db) (t : Term) (r : Raft) → HasRoom r → VoteStands r (judge_mgr db t r).2
unfolding judge_mgr
judge_mgr-VoteStands db t r h =
    ground (
      arith,
      count_acks-Still t r,
      count_joined-VoteStands db (count_acks t r).1 (count_acks t r).2,
    )

judge_semi_sync-VoteStands :
    (t : Term) (r : Raft) → HasRoom r → VoteStands r (judge_semi_sync t r).2
unfolding judge_semi_sync
judge_semi_sync-VoteStands t r h =
    ground (arith, count_acks-Still t r, bump_view-VoteStands (count_acks t r).1 (count_acks t r).2)

next_round-Still : (db : Db) (t : Term) (r : Raft) → Still r (next_round db t r).1
unfolding next_round send_heartbeat
next_round-Still db t r = ground arith

pub on_heartbeat_tick-VoteStands :
    (db : Db) (t : Term) (r : Raft) → HasRoom r → VoteStands r (on_heartbeat_tick db t r).1
unfolding on_heartbeat_tick
on_heartbeat_tick-VoteStands db t r h =
    let jm = judge_mgr db t r in
    let js = judge_semi_sync t r in
    ground (
      arith,
      judge_mgr-VoteStands db t r,
      judge_semi_sync-VoteStands t r,
      next_round-Still db (record (jm.1) { mgr_cnt = 1 }) jm.2,
      next_round-Still db js.1 js.2,
    )

pub check_down-Still : (t : Term) (r : Raft) → Still r (check_down t r)
unfolding check_down
check_down-Still t r = ground (arith, degrade-Still r)
