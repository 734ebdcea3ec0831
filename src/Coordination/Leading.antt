-- ===== src/Coordination/Leading.antt =====
-- The reconcile loop of internal/ha over the election of internal/election/raft.
use neoha.Common.{true, false, String, Option, ◌≡◌, refl, ◌⊎◌, inl, inr}
use neoha.Common.Result.{Error}
use neoha.Driver.{Driver, Op}
use neoha.Raft.State.{Raft}
use neoha.Raft.Wire.{State}
use neoha.Raft.State.{Db}
use neoha.Reconcile.{World}
use neoha.Reconcile.Cycle.{run_once}
use neoha.Reconcile.Cycle.Safety.{promotions, run_once_promotes}
use neoha.Raft.Members.{is_leader}
use neoha.Coordination.{Adapter, raft_outside, leads}

leads_lem : (s : State) → is_leader s ≡ true → s ≡ State.leader
leads_lem State.leader h = refl
leads_lem State.follower h = absurd (cc)
leads_lem State.candidate h = absurd (cc)
leads_lem State.idle h = absurd (cc)
leads_lem State.invalid h = absurd (cc)
leads_lem State.learner h = absurd (cc)
leads_lem State.stopped h = absurd (cc)
leads_lem State.unknown h = absurd (cc)

-- With the election of internal/election/raft as coordinator, a reconcile cycle runs the start
-- hook, ApplyPrimary or ApplyPrimaryMGRPhase2 only on a node whose role in the election is
-- LEADER, whose database the driver found promotable and whose tag nofailover is off.
pub raft_leader_promotes :
    {E : Type 0} (node : E → Raft) (db : E → Db) (a : Adapter) (ctx : E → Option Error)
    (run : String → Op E (Unit {0})) (d : Driver E) (w : World E)
    → (promotions (run_once (raft_outside node db a ctx run) d w).1.trace ≡ promotions w.trace)
      ⊎ (((node w.env).state ≡ State.leader)
          × ((d.promotable w.env).0.0 ≡ true)
          × (w.rec.nofailover ≡ false))
unfolding raft_outside leads
raft_leader_promotes node db a ctx run d w =
    elim (run_once_promotes (raft_outside node db a ctx run) d w) [
      | inl e ↦ inl e
      | inr (l, p, n) ↦ inr (leads_lem (node w.env).state l, p, n)
    ]
