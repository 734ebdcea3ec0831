-- ===== src/Raft/Machine/Step/Casting.antt =====
-- What a step of a node does to its vote and its view, beside what the loop of its role does.
use neoha.Raft.Machine.Step.{Input, recheck, exit_role, loop_event, enter, state_number}
use neoha.Raft.Machine.Roles.{
  Phase, running, Node, Event, on_event, heartbeat, request_vote, vote_response, leaving,
}
use neoha.Raft.Machine.Roles.Casting.{Ordinary, Voted, VotedCandidate}
use neoha.Raft.Passive.Heartbeat.{VoteStands}
use neoha.Raft.Leader.Loop.Rounds.{check_down-Still}
use neoha.Raft.Leader.Settings
use neoha.Raft.Leader.Loop
use neoha.Raft.Database.{demote_read_only}
use neoha.Raft.State.{Raft, Db}
use neoha.Raft.Wire.{
  State, leader, candidate, Request, Response, follower, idle, invalid, error_invalid_view_id,
  RetCode, learner,
}
use neoha.Common.{arith, ◌≢◌, ◌≡◌, refl, Option, false, Bool, true, ℕ, ◌⊎◌, none, some, String, ◌+◌}
use neoha.Raft.Follower.Vote.Laws.{IsGrant}

abbrev pub Still : Raft → Raft → Type 0
Still r s = (s.meta.view_id ≡ r.meta.view_id) × (s.voted_for ≡ r.voted_for)

exit_role-Still : (s : State) (n : Node) → Still n.raft (exit_role s n).raft
unfolding exit_role Settings.state_exit demote_read_only
exit_role-Still leader n = ground arith
exit_role-Still _ n = (refl, refl)

pub recheck-Still : (s : State) (n : Node) → Still n.raft (recheck s n).raft
unfolding recheck
recheck-Still leader n = ground (
  arith,
  check_down-Still n.term n.raft,
  exit_role-Still leader n,
  exit_role-Still leader (record n { raft = Loop.check_down n.term n.raft }),
)
recheck-Still s n = ground (arith, exit_role-Still s n)

abbrev pub in_candidacy : Phase → Bool
in_candidacy (running candidate) = true
in_candidacy _ = false

-- A candidate's loop goes on only while the state is CANDIDATE.
recheck-candidate :
    (n : Node) → n.raft.state ≢ candidate → in_candidacy (recheck candidate n).phase ≡ false
unfolding recheck exit_role state_number
recheck-candidate n h = ground arith

pub recheck-other :
    (s : State) (n : Node)
    → s ≢ candidate
    → n.phase ≡ running s
    → in_candidacy (recheck s n).phase ≡ false
unfolding recheck exit_role
recheck-other leader n h e = ground arith
recheck-other _ n h e = ground arith

pub on_event-phase :
    (s : State) (db : Db) (e : Event) (n : Node) → (on_event s db e n).1.phase ≡ n.phase
unfolding on_event
on_event-phase follower db (heartbeat q) n = refl
on_event-phase leader db (heartbeat q) n = refl
on_event-phase candidate db (heartbeat q) n = refl
on_event-phase idle db (heartbeat q) n = refl
on_event-phase invalid db (heartbeat q) n = refl
on_event-phase learner db (heartbeat q) n = refl
on_event-phase follower db (request_vote q) n = refl
on_event-phase leader db (request_vote q) n = refl
on_event-phase candidate db (request_vote q) n = refl
on_event-phase idle db (request_vote q) n = refl
on_event-phase invalid db (request_vote q) n = refl
on_event-phase learner db (request_vote q) n = refl
on_event-phase _ db _ n = refl

-- The vote that a step casts: a request that a follower, a candidate or a leader grants.
abbrev granted : Request → Option Response → Option (ℕ × String)
granted q none = none
granted q (some rsp) = elim rsp.ret_code [ RetCode.ok ↦ some (q.view_id, q.from) | _ ↦ none ]

abbrev pub cast : Phase → Input → Option Response → Option (ℕ × String)
cast (running follower) (loop_event (request_vote q)) rsp = granted q rsp
cast (running candidate) (loop_event (request_vote q)) rsp = granted q rsp
cast (running leader) (loop_event (request_vote q)) rsp = granted q rsp
cast _ _ _ = none

-- The inputs at which a role starts, or a candidate starts over.
abbrev pub is_opening : Phase → Input → Bool
is_opening (leaving s) enter = true
is_opening (running candidate) (loop_event Event.election_tick) = true
is_opening _ _ = false

-- The inputs that may bring a newer view: what the loop of a role takes from its channel or timer.
abbrev pub of_loop : Input → Bool
of_loop (loop_event e) = true
of_loop _ = false

-- The four things that a step may do: leave the vote, cast one, take the view of a refusal, or
-- open a view of its own. `p` is the phase before the step.
abbrev pub Stands : Phase → Input → Raft → Option Response × Node → Type 0
Stands p i r (rsp, n) =
    (cast p i rsp ≡ none)
    × VoteStands r n.raft
    × (of_loop i ≡ false → Still r n.raft)
    × (in_candidacy n.phase ≡ true → (in_candidacy p ≡ true) × (is_opening p i ≡ false))

abbrev pub Casts : Phase → Input → Raft → Option Response × Node → Type 0
Casts p i r (rsp, n) =
    (q : Request) × (cast p i rsp ≡ some (q.view_id, q.from))
    × (q.from ≢ "")
    × IsGrant q r n.raft
    × (in_candidacy n.phase ≡ false)

abbrev pub Takes : Phase → Input → Raft → Option Response × Node → Type 0
Takes p i r (rsp, n) =
    (v : Response) × (cast p i rsp ≡ none)
    × (i ≡ loop_event (vote_response v))
    × (v.ret_code ≡ error_invalid_view_id)
    × (in_candidacy p ≡ true)
    × (n.raft.meta.view_id ≡ v.view_id)
    × (n.raft.voted_for ≡ "")
    × (in_candidacy n.phase ≡ false)

-- A role that starts and opens a view is that of a candidate.
abbrev pub Standing : Input → Raft → Node → Type 0
Standing enter r n = (r.state ≡ candidate) × (n.phase ≡ running candidate)
Standing _ r n = Unit {0}

abbrev pub Opens : Phase → Input → Raft → Option Response × Node → Type 0
Opens p i r (rsp, n) =
    (cast p i rsp ≡ none)
    × (is_opening p i ≡ true)
    × Standing i r n
    × (n.raft.meta.view_id ≡ r.meta.view_id + 1)
    × (n.raft.voted_for ≡ "")

abbrev pub Effect : Phase → Input → Raft → Option Response × Node → Type 0
Effect p i r x = Stands p i r x ⊎ Casts p i r x ⊎ Takes p i r x ⊎ Opens p i r x

-- A role that only votes: what its loop did, and the test of the state after it.
abbrev pub OnlyVotes : State → Type 0
OnlyVotes follower = Unit
OnlyVotes leader = Unit
OnlyVotes _ = ⊥

pub voter-Effect :
    (s : State) (e : Event) (rsp : Option Response) (r : Raft) (m : Node)
    → OnlyVotes s
    → Voted e rsp r m.raft
    → m.phase ≡ running s
    → Ordinary e r
    → Effect (running s) (loop_event e) r (rsp, recheck s m)
voter-Effect follower (request_vote q) rsp r m u v p o =
    ground (arith, recheck-Still follower m, recheck-other follower m)
voter-Effect leader (request_vote q) rsp r m u v p o =
    ground (arith, recheck-Still leader m, recheck-other leader m)
voter-Effect follower e rsp r m u v p o =
    ground (arith, recheck-Still follower m, recheck-other follower m)
voter-Effect leader e rsp r m u v p o =
    ground (arith, recheck-Still leader m, recheck-other leader m)
voter-Effect _ e rsp r m u v p o = absurd u

pub candidate-Effect :
    (e : Event) (rsp : Option Response) (r : Raft) (m : Node)
    → VotedCandidate e rsp r m.raft
    → Ordinary e r
    → Effect (running candidate) (loop_event e) r (rsp, recheck candidate m)
candidate-Effect (request_vote q) rsp r m v o =
    ground (arith, recheck-Still candidate m, recheck-candidate m)
candidate-Effect (vote_response a) rsp r m v o =
    ground (arith, recheck-Still candidate m, recheck-candidate m)
candidate-Effect Event.election_tick rsp r m v o = ground (arith, recheck-Still candidate m)
candidate-Effect e rsp r m v o = ground (arith, recheck-Still candidate m)

pub passive-Effect :
    (s : State) (e : Event) (rsp : Option Response) (r : Raft) (m : Node)
    → VoteStands r m.raft
    → cast (running s) (loop_event e) rsp ≡ none
    → in_candidacy (recheck s m).phase ≡ false
    → Effect (running s) (loop_event e) r (rsp, recheck s m)
passive-Effect s e rsp r m v c p = ground (arith, recheck-Still s m)
