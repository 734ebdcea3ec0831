-- ===== src/Raft/Leader/Loop/Defeat.antt =====
-- When a leader that nobody answers gives up: the count of missed rounds in `Loop` of
-- internal/election/raft/leader.go.
use neoha.Raft.Leader.Loop.{
  Term, on_heartbeat_tick, judge_semi_sync, count_acks, next_round, send_heartbeat,
  degrade_to_follower,
}
use neoha.Raft.State.{set_state, Raft, Db, get_members, get_quorums}
use neoha.Raft.Wire.{leader, follower, is_mgr}
use neoha.Common.{◌⊎◌, refl, inl, inr, ◌≡◌, ◌≤◌, ◌<◌, arith, ◌+◌, false, List, [], ◌∷◌, length, ℕ}

-- Rounds without a single answer, as long as the node leads.
unfoldable pub unanswered : List Db → Term → Raft → Term × Raft
unanswered [] t r = (t, r)
unanswered (db ∷ dbs) t r =
    let (t', r') = on_heartbeat_tick db t r in
    let rest = unanswered dbs t' r' in elim r'.state [ leader ↦ rest | _ ↦ (t', r') ]

-- One such round: the leader gives up, or has counted one more.
record Missed (t u : Term) (r s : Raft) : Type 0 where
  pub counted : u.less_ht_acks ≡ t.less_ht_acks + 1
  pub unacknowledged : u.ack_granted ≡ 1
  pub leads : s.state ≡ leader
  pub same_conf : s.conf ≡ r.conf
  pub same_meta : s.meta ≡ r.meta

round-Missed :
    (db : Db) (t : Term) (r : Raft)
    → is_mgr r.conf.repl_mode ≡ false
    → 2 < get_members r
    → t.ack_granted ≡ 1
    → r.state ≡ leader
    → t.less_ht_acks + 1 < r.conf.admit_defeat_ht_cnt
    → Missed t (on_heartbeat_tick db t r).0 r (on_heartbeat_tick db t r).1
unfolding on_heartbeat_tick judge_semi_sync count_acks next_round send_heartbeat get_members
    get_quorums
round-Missed db t r e m a s h = ground arith

last_round :
    (db : Db) (t : Term) (r : Raft)
    → is_mgr r.conf.repl_mode ≡ false
    → 2 < get_members r
    → t.ack_granted ≡ 1
    → r.conf.admit_defeat_ht_cnt ≤ t.less_ht_acks + 1
    → (on_heartbeat_tick db t r).1.state ≡ follower
unfolding on_heartbeat_tick judge_semi_sync count_acks get_members get_quorums degrade_to_follower
    set_state
last_round db t r e m a h = ground arith

le_or_lt : (a b : ℕ) → (a ≤ b) ⊎ (b < a)
le_or_lt a b = ground arith

unanswered_last :
    (db : Db) (dbs : List Db) (t : Term) (r : Raft)
    → (on_heartbeat_tick db t r).1.state ≡ follower
    → (unanswered (db ∷ dbs) t r).1.state ≡ follower
unfolding unanswered
unanswered_last db dbs t r h = rw (unanswered, h) h

unanswered_next :
    (db : Db) (dbs : List Db) (t : Term) (r : Raft)
    → (on_heartbeat_tick db t r).1.state ≡ leader
    → unanswered (db ∷ dbs) t r
      ≡ unanswered dbs (on_heartbeat_tick db t r).0 (on_heartbeat_tick db t r).1
unfolding unanswered
unanswered_next db dbs t r h = rw (unanswered, h) refl

-- A semi-sync leader of more than two members that hears from nobody steps down: once the rounds
-- without an answer, added to those already missed (fewer than the limit), reach the configured
-- limit, the node is a follower, whatever the database answers.
pub unanswered_steps_down :
    (dbs : List Db) (t : Term) (r : Raft)
    → is_mgr r.conf.repl_mode ≡ false
    → 2 < get_members r
    → t.ack_granted ≡ 1
    → r.state ≡ leader
    → t.less_ht_acks < r.conf.admit_defeat_ht_cnt
    → r.conf.admit_defeat_ht_cnt ≤ t.less_ht_acks + length dbs
    → (unanswered dbs t r).1.state ≡ follower
unfolding get_members
unanswered_steps_down [] t r e m a s n h = absurd (omega arith)
unanswered_steps_down (db ∷ dbs) t r e m a s n h =
    elim (le_or_lt r.conf.admit_defeat_ht_cnt (t.less_ht_acks + 1)) [
      | inl k ↦ unanswered_last db dbs t r (last_round db t r e m a k)
      | inr k ↦
          let next = round-Missed db t r e m a s k in
          let r' = (on_heartbeat_tick db t r).1 in
          let t' = (on_heartbeat_tick db t r).0 in
          rw (unanswered_next db dbs t r next.leads) (
            unanswered_steps_down dbs t' r' (ground (arith, next.same_conf))
              (ground (arith, next.same_meta)) next.unacknowledged next.leads
              (ground (arith, next.same_conf, next.counted))
              (ground (arith, next.same_conf, next.counted)))
    ]
