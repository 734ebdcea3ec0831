-- ===== src/Raft/Leader/Loop.antt =====
-- The heartbeat tick in `Loop` of internal/election/raft/leader.go. A part that ends in `break`
-- returns `true` first: the node has left the LEADER state and sends nothing more.
pub mod Rounds
pub mod Defeat
use neoha.Common.{ℕ, ◌+◌, ◌*◌, Bool, true, false, ◌||◌, ◌==◌, not, if◌then◌else◌, ltb, leb}
use neoha.Raft.Wire.{cmt_ok, is_mgr}
use neoha.Raft.State.{Raft, Db, get_members, get_quorums, update_view, u64}
use neoha.Raft.Database.{enable_read_write, is_delegated_primary_ready, is_mgr_cluster_status_ok}
use neoha.Raft.Leader.{degrade_to_follower, send_heartbeat}

-- The local variables of `Loop`.
pub record Term : Type 0 where
  pub inc_view_id : Bool
  pub mysql_down : Bool
  pub ack_granted : ℕ
  pub mgr_cnt : ℕ
  pub check_mgr : ℕ
  pub less_ht_acks : ℕ
  pub less_cmt_ht_acks : ℕ

abbrev pub first_term : Term
first_term = record {
  inc_view_id = false;
  mysql_down = false;
  ack_granted = 1;
  mgr_cnt = 1;
  check_mgr = 0;
  less_ht_acks = 0;
  less_cmt_ht_acks = 0;
}

abbrev max_check_mgr : ℕ
max_check_mgr = 5

abbrev less_acks : Raft → Raft
less_acks r = record r {
  stats = record (r.stats) { less_heartbeat_acks = u64 (r.stats.less_heartbeat_acks + 1) };
}

abbrev less_cmt_acks : Raft → Raft
less_cmt_acks r = record r {
  stats = record (r.stats) { less_cmt_heartbeat_acks = u64 (r.stats.less_cmt_heartbeat_acks + 1) };
}

-- One more round without a majority counts only with more than two members.
abbrev count_miss : ℕ → Raft → ℕ
count_miss n r = if ltb 2 (get_members r) then n + 1 else n

-- Too few acknowledgements, or enough of them.
unfoldable pub count_acks : Term → Raft → Bool × Term × Raft
count_acks t r =
    let missed = count_miss t.less_ht_acks r in
    if leb (get_quorums r) t.ack_granted
    then (false, record t { less_ht_acks = 0 }, r)
    else if leb r.conf.admit_defeat_ht_cnt missed
    then (true, record t { less_ht_acks = missed }, degrade_to_follower (less_acks r))
    else (false, record t { less_ht_acks = missed }, less_acks r)

-- "for brain split": the view grows by two when the first member falls silent.
unfoldable pub bump_view : Term → Raft → Term × Raft
bump_view t r =
    if t.ack_granted == get_members r
    then (record t { inc_view_id = false }, r)
    else if t.inc_view_id
    then (t, r)
    else (record t { inc_view_id = true }, update_view (u64 (r.meta.view_id + 2)) r.leader r)

-- A primary that is still read-only is opened once the group has a majority.
open_writes : Db → Raft → Raft
open_writes db r =
    let (done, r') = enable_read_write db r in
    if not r.is_read_only
    then r
    else if r.conf.delegate_db_apply
    then record r { is_read_only = not (is_delegated_primary_ready db r) }
    else record r' { is_read_only = not done }

-- The group is watched: five unhealthy rounds in a row end the term.
watch_group : Db → Term → Raft → Bool × Term × Raft
watch_group db t r =
    let (ok, _, r') = is_mgr_cluster_status_ok db r in
    if ok
    then (false, record t { check_mgr = 0 }, r')
    else if leb max_check_mgr (t.check_mgr + 1)
    then (true, record t { check_mgr = t.check_mgr + 1 }, degrade_to_follower r')
    else (false, record t { check_mgr = t.check_mgr + 1 }, r')

-- Too few members have joined the group, or enough of them.
count_joined : Db → Term → Raft → Bool × Term × Raft
unfolding open_writes watch_group
count_joined db t r =
    let missed = count_miss t.less_cmt_ht_acks r in
    let (bumped, r') = bump_view (record t { less_cmt_ht_acks = 0 }) (open_writes db r) in
    if leb (get_quorums r) t.mgr_cnt
    then watch_group db bumped r'
    else if leb (r.conf.admit_defeat_ht_cnt * 3) missed
    then (true, record t { less_cmt_ht_acks = missed }, degrade_to_follower (less_cmt_acks r))
    else (false, record t { less_cmt_ht_acks = missed }, less_cmt_acks r)

-- What the replication mode asks of a round.
unfoldable pub judge_semi_sync : Term → Raft → Bool × Term × Raft
judge_semi_sync t r =
    let (broke, t', r') = count_acks t r in
    let (t'', r'') = bump_view t' r' in
    if leb (get_quorums r) t.ack_granted then (false, t'', r'') else (broke, t', r')

unfoldable pub judge_mgr : Db → Term → Raft → Bool × Term × Raft
unfolding count_joined
judge_mgr db t r =
    let (broke, t', r') = count_acks t r in
    elim r.cmt_state [
      | cmt_ok ↦ if broke then (true, t', r') else count_joined db t' r'
      | _ ↦ (false, t, r)
    ]

-- The next round of heartbeats.
unfoldable pub next_round : Db → Term → Raft → Term × Raft
next_round db t r =
    let (down, r') = send_heartbeat db r in
    (record t { ack_granted = 1; mysql_down = down || t.mysql_down }, r')

-- The tick of heartbeatTick.
unfoldable pub on_heartbeat_tick : Db → Term → Raft → Term × Raft
on_heartbeat_tick db t r =
    let (broke, t', r') =
      if is_mgr r.conf.repl_mode then judge_mgr db t r else judge_semi_sync t r in
    let counted = if is_mgr r.conf.repl_mode then record t' { mgr_cnt = 1 } else t' in
    if broke then (t', r') else next_round db counted r'

-- `Loop` up to its `for`, after `stateInit`.
unfoldable pub start_term : Db → Raft → Term × Raft
start_term db r = next_round db first_term r

-- The head of the `for`: a dead database ends the term.
unfoldable pub check_down : Term → Raft → Raft
check_down t r = if t.mysql_down then degrade_to_follower r else r
