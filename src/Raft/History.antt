-- ===== src/Raft/History.antt =====
-- A node with the votes that it has cast so far, over any sequence of inputs: what holds of the
-- votes of one node in all of internal/election/raft.
pub mod Earlier
use neoha.Raft.Machine.Step.{Input, step, loop_event}
use neoha.Raft.Machine.Step.Casting.{cast, in_candidacy, is_opening, Effect}
use neoha.Raft.Machine.Step.Effects.{Usual, step-Effect}
use neoha.Raft.Machine.Roles.{Node, vote_response}
use neoha.Raft.State.{Db, Raft}
use neoha.Common.{
  inl, inr, subst, ◌≢◌, none, [], ◌≡◌, List, Option, ℕ, if◌then◌else◌, true, ◌≤◌, String, some, ◌+◌,
  ◌<◌, ◌⊎◌, ◌∷◌, ◌≢◌, arith, inl, inr, false,
}
use neoha.Raft.Wire.{Response, Request}
use neoha.Raft.Passive.Heartbeat.{VoteStands}
use neoha.Raft.Follower.Vote.Laws.{IsGrant}
use neoha.Raft.History.Earlier.{
  Consistent, stands-Past, Past, stands_view, Below, grant-Past, Below-Past, Past-newer, Past-Below,
}

-- `round` is the view in which the node last asked for votes.
pub record History : Type 0 where
  pub node : Node
  pub votes : List (ℕ × String)
  pub round : ℕ

abbrev pub keep : Option (ℕ × String) → List (ℕ × String) → List (ℕ × String)
keep none vs = vs
keep (some v) vs = v ∷ vs

abbrev pub extend : Input → Option Response × Node → History → History
extend i (rsp, n) h = record {
  node = n;
  votes = keep (cast h.node.phase i rsp) h.votes;
  round = if is_opening h.node.phase i then n.raft.meta.view_id else h.round;
}

unfoldable pub record_step : Db → Input → History → History
record_step db i h = extend i (step db i h.node) h

unfoldable pub record_run : List (Db × Input) → History → History
record_run [] h = h
record_run ((db, i) ∷ is) h = record_run is (record_step db i h)

-- A refusal for a stale view answers the round in which the vote was asked for.
abbrev pub AnswersRound : Input → History → Type 0
AnswersRound (loop_event (vote_response v)) h = h.round ≤ v.view_id
AnswersRound _ h = Unit

-- Each input is an ordinary one at the moment that it comes.
abbrev pub Regular : List (Db × Input) → History → Type 0
Regular [] h = Unit
Regular ((db, i) ∷ is) h = Usual i h.node.raft × AnswersRound i h × Regular is (record_step db i h)

pub record Inv (h : History) : Type 0 where
  pub past : Past h.node.raft.meta.view_id h.node.raft.voted_for h.votes
  pub consistent : Consistent h.votes
  pub standing :
      in_candidacy h.node.phase ≡ true
      → (h.round ≤ h.node.raft.meta.view_id) × Below h.round h.votes

extend-Inv :
    (i : Input) (rsp : Option Response) (n : Node) (h : History)
    → Effect h.node.phase i h.node.raft (rsp, n)
    → AnswersRound i h
    → Inv h
    → Inv (extend i (rsp, n) h)
extend-Inv i rsp n h (inl (c, v, w, q)) a k = rw c record {
  past = stands-Past h.node.raft n.raft h.votes v k.past;
  consistent = k.consistent;
  standing = λ e. rw ((q e).1) (
    ground (arith, stands_view h.node.raft n.raft v, k.standing (q e).0),
    (k.standing (q e).0).1,
  );
}
extend-Inv i rsp n h (inr (inl (q, c, x, g, p))) a k = rw c record {
  past = (grant-Past q h.node.raft n.raft h.votes g x k.past).0;
  consistent = ((grant-Past q h.node.raft n.raft h.votes g x k.past).1, k.consistent);
  standing = λ e. absurd (ground (arith, e, p));
}
extend-Inv i rsp n h (inr (inr (inl (v, c, e, f, p, w, z, o)))) a k = rw c record {
  past =
      rw (w, z)
        (Below-Past h.round v.view_id h.node.raft.meta.view_id h.node.raft.voted_for "" h.votes
          (subst (λ j. AnswersRound j h) e a) (k.standing p).1 k.past);
  consistent = k.consistent;
  standing = λ e. absurd (ground (arith, e, o));
}
extend-Inv i rsp n h (inr (inr (inr (c, o, t, w, z)))) a k =
    rw (c, o)
      record {
        past =
            rw (w, z)
              (Past-newer h.node.raft.meta.view_id (h.node.raft.meta.view_id + 1)
                h.node.raft.voted_for "" h.votes (omega arith) k.past);
        consistent = k.consistent;
        standing = λ e. (
          omega arith,
          rw w (Past-Below h.node.raft.meta.view_id h.node.raft.voted_for h.votes k.past),
        );
      }

record_step-Inv :
    (db : Db) (i : Input) (h : History)
    → Usual i h.node.raft
    → AnswersRound i h
    → Inv h
    → Inv (record_step db i h)
unfolding record_step
record_step-Inv db i h u a k =
    extend-Inv i (step db i h.node).0 (step db i h.node).1 h (step-Effect db i h.node u) a k

record_run-Inv :
    (is : List (Db × Input)) (h : History) → Regular is h → Inv h → Inv (record_run is h)
unfolding record_run
record_run-Inv [] h g k = k
record_run-Inv ((db, i) ∷ is) h (u, a, g) k =
    record_run-Inv is (record_step db i h) g (record_step-Inv db i h u a k)

abbrev pub unvoted : Node → History
unvoted n = record { node = n; votes = []; round = 0 }

unvoted-Inv : (n : Node) → in_candidacy n.phase ≡ false → Inv (unvoted n)
unvoted-Inv n h = record {
  past = tt;
  consistent = tt;
  standing = λ e. absurd (ground (arith, e, h));
}

-- Of the votes that a node casts for others in a run, two of the same view are for the same
-- member. The run is any sequence of inputs (requests, heartbeats, responses, ticks, jobs,
-- administrative calls), with any answers of the database, from a node that is not standing.
-- Each input is an ordinary one: a sender has a name, counters do not wrap and are less than 2 ^
-- 63 apart, and a refusal for a stale view names no view before the one in which the node last
-- stood.
pub vote_once :
    (is : List (Db × Input)) (n : Node)
    → in_candidacy n.phase ≡ false
    → Regular is (unvoted n)
    → Consistent (record_run is (unvoted n)).votes
vote_once is n h g = (record_run-Inv is (unvoted n) g (unvoted-Inv n h)).consistent
