-- ===== src/Raft/Machine/Step.antt =====
-- `stateLoop` of raft.go: the end and the start of a role's loop, and what acts beside it.
pub mod Casting
pub mod Effects
use neoha.Common.{
  ℕ, zero, suc, Bool, true, false, List, [], ◌∷◌, ◌++◌, Option, none, some, ◌||◌, ◌==◌,
  if◌then◌else◌,
}
use neoha.Raft.Wire.{
  State, follower, candidate, leader, idle, invalid, learner, stopped, unknown, Response,
}
use neoha.Raft.State.{Raft, Db, Job}
use neoha.Raft.Passive.{passive_state_init}
use neoha.Raft.Follower
use neoha.Raft.Follower.Join
use neoha.Raft.Candidate.Votes
use neoha.Raft.Leader.Settings
use neoha.Raft.Leader.Loop
use neoha.Raft.Ha
use neoha.Raft.Ha.{Outcome}
use neoha.Raft.Machine.Roles.{Phase, running, leaving, ended, Node, Event, on_event}

-- The values of the constants, `1 << iota`.
state_number : State → ℕ
state_number follower = 1
state_number candidate = 2
state_number leader = 4
state_number idle = 8
state_number invalid = 16
state_number learner = 32
state_number stopped = 64
state_number unknown = 128

-- The exit code of a role's loop.
exit_role : State → Node → Node
exit_role leader n = record n { raft = Settings.state_exit n.raft; phase = leaving leader }
exit_role s n = record n { phase = leaving s }

-- The condition of a role's `for`, and the test at the head of its body for a leader.
pub recheck : State → Node → Node
unfolding state_number exit_role
recheck leader n =
    let n' = record n { raft = Loop.check_down n.term n.raft } in
    if state_number n.raft.state == 4
    then if n.term.mysql_down then exit_role leader n' else n
    else exit_role leader n
recheck s n = if state_number n.raft.state == state_number s then n else exit_role s n

-- The goroutines that a role's `wg` counts.
awaited : State → Job → Bool
awaited follower Job.follower_settings = true
awaited leader Job.semi_sync_wait = true
awaited leader Job.semi_sync_change = true
awaited leader Job.semi_sync_open = true
awaited leader Job.mgr_wait = true
awaited leader Job.mgr_change = true
awaited leader Job.mgr_close = true
awaited leader Job.mgr_delegated = true
awaited _ _ = false

any_awaited : State → List Job → Bool
unfolding awaited
any_awaited s [] = false
any_awaited s (j ∷ js) = awaited s j || any_awaited s js

-- The next role, from the top of `stateLoop` to the `for` of its loop.
start_role : State → Db → Node → Node
start_role follower db n = record n {
  raft = Join.state_init db (record (n.raft) { is_brain_split = true });
  phase = running follower;
  pings = 1;
}
start_role candidate db n =
    let (b, r) = Votes.start_election n.raft in
    record n { raft = r; ballot = b; phase = running candidate }
start_role leader db n =
    let (t, r) = Loop.start_term db (Settings.state_init n.raft) in
    recheck leader (record n { raft = r; term = t; phase = running leader })
start_role stopped db n = record n { phase = ended }
start_role unknown db n = n
start_role s db n = record n { raft = passive_state_init n.raft; phase = running s }

run_one : Db → Bool → Job → Raft → Option Job × Raft
run_one db expired (Job.mgr_join from repl) r = Join.start_mgr_join from repl r
run_one db expired (Job.mgr_joining from repl) r = Join.finish_mgr_join db from repl r
run_one db expired Job.follower_settings r = (none, Join.follower_settings r)
run_one db expired Job.semi_sync_wait r = Settings.semi_sync_wait db r
run_one db expired Job.semi_sync_change r = Settings.semi_sync_change db r
run_one db expired Job.semi_sync_open r = Settings.semi_sync_open db r
run_one db expired Job.mgr_wait r = Settings.mgr_wait db r
run_one db expired Job.mgr_change r = Settings.mgr_change db r
run_one db expired Job.mgr_close r = Settings.mgr_close db r
run_one db expired Job.candidate_promoted r = (none, Ha.inc_candidate_promotes r)
run_one db expired Job.mgr_delegated r = Settings.mgr_delegated expired db r

-- The i-th goroutine runs up to its next wait.
abbrev take_job : ℕ → List Job → Option (Job × List Job)
take_job i [] = none
take_job zero (j ∷ js) = some (j, js)
take_job (suc i) (j ∷ js) = elim (take_job i js) [ none ↦ none | some (k, ks) ↦ some (k, j ∷ ks) ]

abbrev resume : Option Job → Raft → Raft
resume none r = r
resume (some j) r = record r { jobs = r.jobs ++ j ∷ [] }

run_job_at : Db → ℕ → Bool → Raft → Raft
unfolding run_one
run_job_at db i expired r = elim (take_job i r.jobs) [
  | none ↦ r
  | some (j, js) ↦ let (next, r') = run_one db expired j (record r { jobs = js }) in resume next r'
]

abbrev after : Outcome → Raft
after (Outcome.reply c r) = r
after (Outcome.waits c r) = r
after (Outcome.panic r) = r
after (Outcome.hangs r) = r

-- Everything that may happen to a node.
pub data Input : Type 0 where
  loop_event : Event → Input
  enter : Input
  ping_tick : Input
  ping_response : Response → Input
  purge_tick semi_sync_tick gtid_tick : Input
  run_job : ℕ → Bool → Input
  disable set_learner enable try_to_leader stop : Input

abbrev with_raft : Node → Raft → Option Response × Node
with_raft n r = (none, record n { raft = r })

step_loop : Phase → Db → Event → Node → Option Response × Node
step_loop (running s) db e n = let (rsp, n') = on_event s db e n in (rsp, recheck s n')
step_loop _ db e n = (none, n)

step_enter : Phase → Db → Node → Option Response × Node
step_enter (leaving s) db n =
    (none, if any_awaited s n.raft.jobs then n else start_role n.raft.state db n)
step_enter _ db n = (none, n)

unfoldable pub step : Db → Input → Node → Option Response × Node
unfolding step_loop step_enter run_job_at recheck any_awaited start_role state_number
step db (loop_event e) n = step_loop n.phase db e n
step db enter n = step_enter n.phase db n
step db ping_tick n = (none, record n { pings = 1 })
step db (ping_response rsp) n =
    let (cnt, r) = Follower.on_ping_response rsp n.pings n.raft in
    (none, if state_number n.raft.state == 1 then record n { pings = cnt; raft = r } else n)
step db purge_tick n =
    with_raft n (if n.raft.workers then Settings.purge_binlog db n.raft else n.raft)
step db semi_sync_tick n =
    with_raft n (if n.raft.semi_sync_worker then Settings.check_semi_sync n.raft else n.raft)
step db gtid_tick n = with_raft n (if n.raft.workers then Settings.check_gtid db n.raft else n.raft)
step db (run_job i expired) n = with_raft n (run_job_at db i expired n.raft)
step db disable n = with_raft n (after (Ha.ha_disable n.raft))
step db set_learner n = with_raft n (after (Ha.ha_set_learner n.raft))
step db enable n = with_raft n (after (Ha.ha_enable n.raft))
step db try_to_leader n = with_raft n (after (Ha.ha_try_to_leader db n.raft))
step db stop n = with_raft n (Ha.stop n.raft)

unfoldable pub run : List (Db × Input) → Node → Node
run [] n = n
run ((db, i) ∷ is) n = run is (step db i n).1
