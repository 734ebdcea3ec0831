-- ===== src/Raft/Machine/Step/Effects.antt =====
-- Every step of a node leaves its vote, casts one, takes the view of a refusal or opens a view.
use neoha.Raft.Machine.Step.{
  Input, step, step_loop, step_enter, start_role, run_one, run_job_at, loop_event, enter, ping_tick,
  ping_response, purge_tick, semi_sync_tick, gtid_tick, run_job, try_to_leader, after, resume,
  take_job,
}
use neoha.Raft.Machine.Step.Casting.{
  Effect, Still, voter-Effect, candidate-Effect, passive-Effect, recheck-other, on_event-phase,
  recheck-Still,
}
use neoha.Raft.Machine.Roles.{Phase, running, leaving, ended, Node, Event, on_event}
use neoha.Raft.Machine.Roles.Casting.{Ordinary, on_event-Cast}
use neoha.Raft.Leader.Settings
use neoha.Raft.Leader.Loop
use neoha.Raft.Follower
use neoha.Raft.Follower.Join
use neoha.Raft.Ha
use neoha.Raft.Database.{change_to_master, enable_read_write, is_mgr_cluster_status_ok}
use neoha.Raft.Wire.{State, follower, candidate, leader, stopped, unknown, Response, CmtState}
use neoha.Raft.State.{Raft, Db, set_state, Job, call, DbCall}
use neoha.Raft.Passive.{passive_state_init}
use neoha.Raft.Wire.{State}
use neoha.Raft.Leader.{send_heartbeat}
use neoha.Raft.Database.{demote_read_only}
use neoha.Common.{
  ◌≡◌, arith, none, true, ◌∙◌, inl, refl, ℕ, ◌+◌, Bool, Option-cases, ap, inr, Option, some,
}
use neoha.Raft.Leader.Loop.Rounds.{HasRoom}
use neoha.Raft.Candidate.Votes.{start_election}
use neoha.Raft.Database.Frame.{promotable-SameButFlag, is_mgr_cluster_status_ok-SameButFlag}
use neoha.Raft.Candidate.Votes.Follow.{open_view_next}
use neoha.Raft.Leader.Requests.{degrade_to_follower-HasSteppedDown}

-- What is asked of an input: an ordinary message, and room for the next view.
abbrev pub Usual : Input → Raft → Type 0
Usual (loop_event e) r = Ordinary e r
Usual enter r = HasRoom r
Usual _ r = Unit

step_loop-Effect :
    (p : Phase) (db : Db) (e : Event) (n : Node)
    → n.phase ≡ p
    → Ordinary e n.raft
    → Effect p (loop_event e) n.raft (step_loop p db e n)
unfolding step_loop
step_loop-Effect (running follower) db e n p o =
    let m = on_event follower db e n in
    voter-Effect follower e m.0 n.raft m.1 tt (on_event-Cast follower db e n o)
      (on_event-phase follower db e n ∙ p) o
step_loop-Effect (running leader) db e n p o =
    let m = on_event leader db e n in
    voter-Effect leader e m.0 n.raft m.1 tt (on_event-Cast leader db e n o)
      (on_event-phase leader db e n ∙ p) o
step_loop-Effect (running candidate) db e n p o =
    let m = on_event candidate db e n in
    candidate-Effect e m.0 n.raft m.1 (on_event-Cast candidate db e n o) o
step_loop-Effect (running s) db e n p o =
    let m = on_event s db e n in
    passive-Effect s e m.0 n.raft m.1 (on_event-Cast s db e n o) refl
      (recheck-other s m.1 (λ q. cc) (on_event-phase s db e n ∙ p))
step_loop-Effect (leaving s) db e n p o =
    inl (refl, inl (refl, refl), λ q. (refl, refl), λ q. ground arith)
step_loop-Effect ended db e n p o =
    inl (refl, inl (refl, refl), λ q. (refl, refl), λ q. ground arith)

follower_init-Still : (db : Db) (r : Raft) → Still r (Join.state_init db r)
unfolding Join.state_init demote_read_only
follower_init-Still db r = ground arith

leader_init-Still : (db : Db) (r : Raft) → Still r (Loop.start_term db (Settings.state_init r)).1
unfolding Loop.start_term Loop.next_round Settings.state_init send_heartbeat
leader_init-Still db r = ground arith

passive_init-Still : (r : Raft) → Still r (passive_state_init r)
unfolding passive_state_init demote_read_only
passive_init-Still r = ground arith

start_election_lem :
    (r : Raft)
    → HasRoom r
    → ((start_election r).1.meta.view_id ≡ r.meta.view_id + 1)
      × ((start_election r).1.voted_for ≡ "")
unfolding start_election
start_election_lem r h = open_view_next r h

start_role-Effect :
    (s t : State) (db : Db) (n : Node)
    → n.phase ≡ leaving s
    → n.raft.state ≡ t
    → HasRoom n.raft
    → Effect (leaving s) enter n.raft (none, start_role t db n)
unfolding start_role
start_role-Effect s follower db n p q h =
    ground (arith, follower_init-Still db (record (n.raft) { is_brain_split = true }))
start_role-Effect s candidate db n p q h = ground (arith, q, start_election_lem n.raft)
start_role-Effect s leader db n p q h =
    let x = Loop.start_term db (Settings.state_init n.raft) in
    let m = record n { raft = x.1; term = x.0; phase = running leader } in
    ground (
      arith,
      leader_init-Still db n.raft,
      recheck-Still leader m,
      recheck-other leader m (λ q. cc) refl,
    )
start_role-Effect s stopped db n p q h = ground arith
start_role-Effect s unknown db n p q h = ground arith
start_role-Effect s _ db n p q h = ground (arith, passive_init-Still n.raft)

step_enter-Effect :
    (p : Phase) (db : Db) (n : Node)
    → n.phase ≡ p
    → HasRoom n.raft
    → Effect p enter n.raft (step_enter p db n)
unfolding step_enter
step_enter-Effect (leaving s) db n p h =
    ground (arith, start_role-Effect s n.raft.state db n p refl h)
step_enter-Effect (running s) db n p h = ground arith
step_enter-Effect ended db n p h = ground arith

change_to_master-Still : (db : Db) (r : Raft) → Still r (change_to_master db r).1
unfolding change_to_master
change_to_master-Still db r = ground arith

mgr_change-Still : (db : Db) (r : Raft) → Still r (Settings.mgr_change db r).1
unfolding Settings.mgr_change
mgr_change-Still db r =
    let r' = (is_mgr_cluster_status_ok db r).2 in
    let r'' = (change_to_master db r').1 in
    let same = is_mgr_cluster_status_ok-SameButFlag db r in
    let m = ap (λ (s : Raft). s.meta) same in
    let v = ap (λ (s : Raft). s.voted_for) same in
    ground (
      arith,
      m,
      v,
      change_to_master-Still db r',
      degrade_to_follower-HasSteppedDown (record r'' { cmt_state = CmtState.cmt_error }),
    )

mgr_wait-Still : (db : Db) (r : Raft) → Still r (Settings.mgr_wait db r).1
unfolding Settings.mgr_wait
mgr_wait-Still db r =
    ground (arith, degrade_to_follower-HasSteppedDown (call DbCall.wait_apply_relay_log r))

mgr_delegated-Still : (x : Bool) (db : Db) (r : Raft) → Still r (Settings.mgr_delegated x db r).1
unfolding Settings.mgr_delegated
mgr_delegated-Still x db r = ground (arith, degrade_to_follower-HasSteppedDown r)

run_one-Still : (db : Db) (x : Bool) (j : Job) (r : Raft) → Still r (run_one db x j r).1
unfolding run_one Join.start_mgr_join Join.finish_mgr_join Join.follower_settings demote_read_only
    Settings.semi_sync_wait Settings.semi_sync_change Settings.semi_sync_open Settings.mgr_close
    set_state change_to_master enable_read_write Ha.inc_candidate_promotes
run_one-Still db x Job.mgr_change r = mgr_change-Still db r
run_one-Still db x Job.mgr_wait r = mgr_wait-Still db r
run_one-Still db x Job.mgr_delegated r = mgr_delegated-Still x db r
run_one-Still db x _ r = ground arith

resume-Still : (j : Option Job) (r s : Raft) → Still r s → Still r (resume j s)
resume-Still none r s h = h
resume-Still (some j) r s h = h

run_job_at-Still : (db : Db) (i : ℕ) (x : Bool) (r : Raft) → Still r (run_job_at db i x r)
unfolding run_job_at
run_job_at-Still db i x r = elim (Option-cases (take_job i r.jobs)) [
  | inl e ↦ rw (e, run_job_at) (refl, refl)
  | inr ((j, js), e) ↦
      rw (e, run_job_at)
        (resume-Still (run_one db x j (record r { jobs = js })).0 r
          (run_one db x j (record r { jobs = js })).1
          (run_one-Still db x j (record r { jobs = js })))
]

request-Still :
    (db : Db) (r : Raft)
    → Still r (after (Ha.ha_disable r))
      × Still r (after (Ha.ha_set_learner r))
      × Still r (after (Ha.ha_enable r))
      × Still r (Ha.stop r)
unfolding Ha.ha_disable Ha.ha_set_learner Ha.ha_enable Ha.stop set_state
request-Still db r = ground arith

try_to_leader-Still : (db : Db) (r : Raft) → Still r (after (Ha.ha_try_to_leader db r))
unfolding Ha.ha_try_to_leader set_state
try_to_leader-Still db r =
    let same = promotable-SameButFlag db r in
    let m = ap (λ (s : Raft). s.meta) same in
    let v = ap (λ (s : Raft). s.voted_for) same in ground (arith, m, v)

ping_response-Still :
    (rsp : Response) (c : ℕ) (r : Raft) → Still r (Follower.on_ping_response rsp c r).1
unfolding Follower.on_ping_response
ping_response-Still rsp c r = ground arith

workers-Still :
    (db : Db) (r : Raft)
    → Still r (Settings.purge_binlog db r)
      × Still r (Settings.check_semi_sync r)
      × Still r (Settings.check_gtid db r)
unfolding Settings.purge_binlog Settings.check_semi_sync Settings.check_gtid
workers-Still db r = ground arith

-- A step with an ordinary input does one of four things: it leaves the vote and the view
-- standing, or, where the loop of a role takes it, enters a newer view with no vote; it casts a
-- vote for the sender of a request, which no other member had in that view; it takes the view of
-- a refusal and ends its candidacy; or it opens the next view with no vote: where a role starts,
-- only as one in state CANDIDATE whose loop then runs, and otherwise as a candidate at its
-- election timeout.
pub step-Effect :
    (db : Db) (i : Input) (n : Node) → Usual i n.raft → Effect n.phase i n.raft (step db i n)
unfolding step
step-Effect db (loop_event e) n u = step_loop-Effect n.phase db e n refl u
step-Effect db enter n u = step_enter-Effect n.phase db n refl u
step-Effect db (ping_response rsp) n u = ground (arith, ping_response-Still rsp n.pings n.raft)
step-Effect db (run_job i x) n u = ground (arith, run_job_at-Still db i x n.raft)
step-Effect db try_to_leader n u = ground (arith, try_to_leader-Still db n.raft)
step-Effect db ping_tick n u = ground arith
step-Effect db purge_tick n u = ground (arith, workers-Still db n.raft)
step-Effect db semi_sync_tick n u = ground (arith, workers-Still db n.raft)
step-Effect db gtid_tick n u = ground (arith, workers-Still db n.raft)
step-Effect db _ n u = ground (arith, request-Still db n.raft)
