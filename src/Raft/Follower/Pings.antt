-- ===== src/Raft/Follower/Pings.antt =====
-- The rounds of startCheckBrainSplit in internal/election/raft/follower.go.
use neoha.Raft.Follower.{on_ping_response, counts_as_peer, is_ok}
use neoha.Raft.State.{Raft, get_quorums}
use neoha.Raft.Wire.{Response}
use neoha.Common.{
  List, [], ◌∷◌, ℕ, ◌+◌, ◌≡◌, ◌≤◌, true, false, not, ◌&&◌, str_eq, if◌then◌else◌, arith, Bool,
  Bool-cases, inl, inr,
}

-- The responses of a round, as they come.
unfoldable pub ping_round : List Response → ℕ → Raft → ℕ × Raft
ping_round [] cnt r = (cnt, r)
ping_round (rsp ∷ rsps) cnt r =
    let (cnt', r') = on_ping_response rsp cnt r in ping_round rsps cnt' r'

-- The members that were heard of, a leader apart.
abbrev pub is_heard : Response → Bool
is_heard rsp = is_ok rsp.ret_code && counts_as_peer rsp.state && not (str_eq rsp.state "LEADER")

abbrev pub heard : List Response → ℕ
heard [] = 0
heard (rsp ∷ rsps) = let rest = heard rsps in if is_heard rsp then rest + 1 else rest

response_heard :
    (rsp : Response) (cnt : ℕ) (r : Raft)
    → ((on_ping_response rsp cnt r).0 ≡ (if is_heard rsp then cnt + 1 else cnt))
      × (get_quorums (on_ping_response rsp cnt r).1 ≡ get_quorums r)
      × ((on_ping_response rsp cnt r).1.is_brain_split ≡ false
          → r.is_brain_split ≡ true
          → get_quorums r ≤ (on_ping_response rsp cnt r).0)
unfolding on_ping_response get_quorums
response_heard rsp cnt r = ground arith

-- A node in a brain split that is in none after a sequence of ping responses has counted a
-- majority: the count it started from and the members heard of, a leader apart, reach
-- getQuorums.
pub ping_round_heals :
    (rsps : List Response) (cnt : ℕ) (r : Raft)
    → r.is_brain_split ≡ true
    → (ping_round rsps cnt r).1.is_brain_split ≡ false
    → get_quorums r ≤ cnt + heard rsps
unfolding ping_round
ping_round_heals [] cnt r b h = ground arith
ping_round_heals (rsp ∷ rsps) cnt r b h =
    let (cnt', r') = on_ping_response rsp cnt r in
    let one = response_heard rsp cnt r in
    let ih = ping_round_heals rsps (on_ping_response rsp cnt r).0 (on_ping_response rsp cnt r).1 in
    elim (Bool-cases (on_ping_response rsp cnt r).1.is_brain_split) [
      | inl e ↦ ground (arith, one, ih e h)
      | inr e ↦ ground (arith, one, e)
    ]
