-- ===== src/Raft/Leader/Purge.antt =====
-- Which binlogs a leader may purge: the heartbeat answers in internal/election/raft/leader.go.
use neoha.Raft.Leader.Requests.{degrade_to_follower-HasSteppedDown}
use neoha.Raft.Leader.{process_heartbeat_response, acknowledge}
use neoha.Raft.State.{Raft, get_members}
use neoha.Raft.Wire.{Response, RetCode}
use neoha.Common.{List, [], ◌∷◌, ℕ, ◌+◌, ◌≡◌, arith, ◌⊎◌, ◌<◌, if◌then◌else◌, str_eq, inl, refl}

-- The answers to one round of heartbeats, as they come.
unfoldable pub answers : List Response → ℕ → ℕ → Raft → ℕ × ℕ × Raft
answers [] ack mgr r = (ack, mgr, r)
answers (rsp ∷ rsps) ack mgr r =
    let (ack', mgr', r') = process_heartbeat_response rsp ack mgr r in answers rsps ack' mgr' r'

abbrev pub acks : List Response → ℕ
acks [] = 0
acks (rsp ∷ rsps) =
    let rest = acks rsps in
    elim rsp.ret_code [ RetCode.ok ↦ if str_eq rsp.state "IDLE" then rest else rest + 1 | _ ↦ rest ]

acks_cons :
    (rsp : Response) (rsps : List Response) → acks (rsp ∷ rsps) ≡ acks (rsp ∷ []) + acks rsps
acks_cons rsp rsps = ground arith

answer_acks :
    (rsp : Response) (ack mgr : ℕ) (r : Raft)
    → ((process_heartbeat_response rsp ack mgr r).0 ≡ ack + acks (rsp ∷ []))
      × (get_members (process_heartbeat_response rsp ack mgr r).2 ≡ get_members r)
      × (((process_heartbeat_response rsp ack mgr r).2.next_purge_binlog ≡ r.next_purge_binlog)
          ⊎ ((process_heartbeat_response rsp ack mgr r).2.next_purge_binlog ≡ "")
          ⊎ ((process_heartbeat_response rsp ack mgr r).0 ≡ get_members r))
unfolding process_heartbeat_response acknowledge get_members
answer_acks rsp ack mgr r = ground (arith, degrade_to_follower-HasSteppedDown r)

-- As long as the acknowledgements of a round do not reach the number of members, the answers set
-- no binlog aside for purging: the name that was set aside stands, or there is none.
pub purge_needs_all :
    (rsps : List Response) (ack mgr : ℕ) (r : Raft)
    → ack + acks rsps < get_members r
    → ((answers rsps ack mgr r).2.next_purge_binlog ≡ r.next_purge_binlog)
      ⊎ ((answers rsps ack mgr r).2.next_purge_binlog ≡ "")
unfolding answers
purge_needs_all [] ack mgr r h = inl refl
purge_needs_all (rsp ∷ rsps) ack mgr r h =
    let x = process_heartbeat_response rsp ack mgr r in
    let one = answer_acks rsp ack mgr r in
    let fewer = acks_cons rsp rsps in
    let ih = purge_needs_all rsps x.0 x.1 x.2 (ground (arith, one, fewer)) in
    ground (arith, one, ih, fewer)
