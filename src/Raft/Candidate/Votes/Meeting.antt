-- ===== src/Raft/Candidate/Votes/Meeting.antt =====
-- Two candidates of internal/election/raft/candidate.go that both win have a voter in common.
use neoha.Common.{
  ℕ, ◌+◌, ◌/◌, ◌≤◌, Bool, true, false, not, ◌&&◌, String, List, [], ◌∷◌, ◌≡◌, refl, sym, ◌∙◌, arith,
  str_eq, if◌then◌else◌, length, distinct, subst, ap, Bool-cases, inl, inr,
}
use neoha.Raft.Wire.{State, candidate, leader, Response, RetCode}
use neoha.Raft.State.{Raft, set_state, update_view, get_members, get_quorums}
use neoha.Raft.State.Quorums.{quorums_meet, Within, Shared}
use neoha.Raft.Candidate.{upgrade_to_leader, open_view}
use neoha.Raft.Candidate.Votes.{
  Ballot, start_election, on_vote_response, on_check_votes, process_vote_response, count_vote,
}

abbrev is_candidate : State → Bool
is_candidate State.candidate = true
is_candidate _ = false

-- The responses of a round, as long as the node is a candidate, and the tick that checks the votes.
unfoldable pub tally : List Response → Ballot → Raft → Raft
tally [] b r = on_check_votes b r
tally (a ∷ rest) b r =
    let next = tally rest (on_vote_response a b r).0 (on_vote_response a b r).1 in
    if is_candidate r.state then next else r

abbrev pub elect : List Response → Raft → Raft
elect rs r = tally rs (start_election r).0 (start_election r).1

abbrev gives : RetCode → String → Bool
gives RetCode.ok s = not (str_eq s "IDLE")
gives _ s = false

-- The members whose answer is a vote.
unfoldable pub voters : List Response → List String
voters [] = []
voters (a ∷ rest) = let vs = voters rest in if gives a.ret_code a.state then a.from ∷ vs else vs

abbrev is_up : RetCode → Bool
is_up RetCode.error_mysql_down = false
is_up _ = true

-- No answer says that a database is down.
unfoldable pub all_up : List Response → Bool
all_up [] = true
all_up (a ∷ rest) = is_up a.ret_code && all_up rest

-- At most `n` votes are counted, and a node that leads has a majority of them.
record Counted (ms : List String) (n : ℕ) (b : Ballot) (r : Raft) : Type 0 where
  own : 1 ≤ b.votes
  most : b.votes ≤ n
  members : r.meta.peers ≡ ms
  wins : r.state ≡ leader → length ms / 2 + 1 ≤ b.votes

response-Counted :
    (ms : List String) (n k : ℕ) (a : Response) (b : Ballot) (r : Raft)
    → r.state ≡ candidate
    → is_up a.ret_code ≡ true
    → (if gives a.ret_code a.state then 1 else 0) ≤ k
    → Counted ms n b r
    → Counted ms (n + k) (on_vote_response a b r).0 (on_vote_response a b r).1
unfolding on_vote_response process_vote_response count_vote upgrade_to_leader set_state update_view
    get_members
response-Counted ms n k a b r s u g c = ground (arith)

checked :
    (ms : List String) (n : ℕ) (b : Ballot) (r : Raft)
    → Counted ms n b r
    → (on_check_votes b r).state ≡ leader
    → length ms / 2 + 1 ≤ n
unfolding on_check_votes upgrade_to_leader set_state get_quorums
checked ms n b r c l = ground (arith)

is_candidate-state : (s : State) → is_candidate s ≡ true → s ≡ candidate
is_candidate-state s e = ground (arith, e)

all_up-cons :
    (a : Response) (rest : List Response)
    → all_up (a ∷ rest) ≡ true
    → (is_up a.ret_code ≡ true) × (all_up rest ≡ true)
unfolding all_up
all_up-cons a rest u = ground (arith, u)

abbrev given : Response → ℕ
given a = if gives a.ret_code a.state then 1 else 0

length-voters :
    (a : Response) (rest : List Response)
    → length (voters (a ∷ rest)) ≡ given a + length (voters rest)
unfolding voters
length-voters a rest = ground arith

tally-candidate :
    (a : Response) (rest : List Response) (b : Ballot) (r : Raft)
    → is_candidate r.state ≡ true
    → tally (a ∷ rest) b r ≡ tally rest (on_vote_response a b r).0 (on_vote_response a b r).1
unfolding tally
tally-candidate a rest b r e = rw e refl

tally-other :
    (a : Response) (rest : List Response) (b : Ballot) (r : Raft)
    → is_candidate r.state ≡ false
    → tally (a ∷ rest) b r ≡ r
unfolding tally
tally-other a rest b r e = rw e refl

tally-Majority :
    (ms : List String) (rs : List Response) (n : ℕ) (b : Ballot) (r : Raft)
    → all_up rs ≡ true
    → Counted ms n b r
    → (tally rs b r).state ≡ leader
    → length ms / 2 + 1 ≤ n + length (voters rs)
unfolding tally voters
tally-Majority ms [] n b r u c l = omega (arith, checked ms n b r c l)
tally-Majority ms (a ∷ rest) n b r u c l = elim (Bool-cases (is_candidate r.state)) [
  | inl e ↦
      let (up, u') = all_up-cons a rest u in
      let next =
        response-Counted ms n (given a) a b r (is_candidate-state r.state e) up (omega arith) c in
      let ih =
        tally-Majority ms rest (n + given a) (on_vote_response a b r).0 (on_vote_response a b r).1
          u' next (ap (λ (q : Raft). q.state) (sym (tally-candidate a rest b r e)) ∙ l) in
      omega (arith, ih, length-voters a rest)
  | inr e ↦
      omega
        (arith, c.wins (ap (λ (q : Raft). q.state) (sym (tally-other a rest b r e)) ∙ l), c.most)
]

elect-Majority :
    (r : Raft) (rs : List Response)
    → r.state ≡ candidate
    → all_up rs ≡ true
    → (elect rs r).state ≡ leader
    → get_quorums r ≤ length (r.id ∷ voters rs)
unfolding start_election open_view get_quorums
elect-Majority r rs c u l =
    let started : Counted r.meta.peers 1 (start_election r).0 (start_election r).1 = record {
      own = omega arith;
      most = omega arith;
      members = refl;
      wins = λ e. absurd (ground (arith, c, e));
    } in
    omega (
      arith,
      tally-Majority r.meta.peers rs 1 (start_election r).0 (start_election r).1 u started l,
    )

same_quorums : (r s : Raft) → s.meta.peers ≡ r.meta.peers → get_quorums s ≡ get_quorums r
unfolding get_quorums
same_quorums r s e = ap (λ ms. length ms / 2 + 1) e

-- Two candidates with the same members that both come to lead, each by the responses that it
-- counts from the start of its candidacy, with nothing else between, and the tick that checks
-- them, have a voter in common: a member that is the one candidate or answered it OK while not
-- idle, and that is the other or answered that so. Of each candidate it is assumed that its
-- voters, itself with them, are members and named once, and that no response says that a
-- database is down.
pub winners_meet :
    (r s : Raft) (rs ss : List Response)
    → r.state ≡ candidate
    → s.state ≡ candidate
    → s.meta.peers ≡ r.meta.peers
    → (elect rs r).state ≡ leader
    → (elect ss s).state ≡ leader
    → all_up rs ≡ true
    → all_up ss ≡ true
    → distinct (r.id ∷ voters rs) ≡ true
    → distinct (s.id ∷ voters ss) ≡ true
    → Within (r.id ∷ voters rs) r.meta.peers
    → Within (s.id ∷ voters ss) s.meta.peers
    → Shared (r.id ∷ voters rs) (s.id ∷ voters ss)
winners_meet r s rs ss c d same l m u v dr ds wr ws =
    quorums_meet r (r.id ∷ voters rs) (s.id ∷ voters ss) dr ds wr
      (subst (λ ms. Within (s.id ∷ voters ss) ms) same ws) (elect-Majority r rs c u l)
      (omega (arith, elect-Majority s ss d v m, same_quorums r s same))
