-- ===== src/Raft/State/Quorums.antt =====
-- Majorities of the members, as getQuorums of internal/election/raft/attr.go counts them.
use neoha.Raft.State.{Raft, get_quorums}
use neoha.Common.{
  List, String, [], ◌∷◌, ◌≡◌, true, false, length, contains, distinct, erase_first, arith,
  str_eq_iff, str_eq, ◌≤◌, ◌+◌, suc, ◌⊎◌, inl, inr, Bool-cases,
}

length-erase_first :
    (k : String) (xs : List String)
    → contains k xs ≡ true
    → length xs ≡ suc (length (erase_first k xs))
length-erase_first k [] h = ground arith
length-erase_first k (x ∷ xs) h = ground (arith, length-erase_first k xs)

contains-erase_other :
    (k j : String) (xs : List String)
    → str_eq k j ≡ false
    → contains j xs ≡ true
    → contains j (erase_first k xs) ≡ true
contains-erase_other k j [] h c = c
contains-erase_other k j (x ∷ xs) h c =
    ground (arith, contains-erase_other k j xs, str_eq_iff x k, str_eq_iff x j, str_eq_iff k j)

abbrev pub Within : List String → List String → Type 0
Within xs ms = (j : String) → contains j xs ≡ true → contains j ms ≡ true

erase_first-Within :
    (x : String) (xs ms : List String)
    → contains x xs ≡ false
    → Within xs ms
    → Within xs (erase_first x ms)
erase_first-Within x xs ms h w j c =
    contains-erase_other x j ms (ground (arith, str_eq_iff x j)) (w j c)

length-Within : (xs ms : List String) → distinct xs ≡ true → Within xs ms → length xs ≤ length ms
length-Within [] ms d w = omega arith
length-Within (x ∷ xs) ms d w =
    let here = w x (ground (arith, str_eq_iff x x)) in
    let rest = erase_first-Within x xs ms (ground arith) (λ j c. w j (ground arith)) in
    let ih = length-Within xs (erase_first x ms) (ground arith) rest in
    let one = length-erase_first x ms here in omega arith

abbrev pub Shared : List String → List String → Type 0
Shared xs ys = (v : String) × (contains v xs ≡ true) × (contains v ys ≡ true)

meet_or_fit :
    (xs ys ms : List String)
    → distinct xs ≡ true
    → distinct ys ≡ true
    → Within xs ms
    → Within ys ms
    → Shared xs ys ⊎ (length xs + length ys ≤ length ms)
meet_or_fit [] ys ms d e w v = inr (omega (arith, length-Within ys ms e v))
meet_or_fit (x ∷ xs) ys ms d e w v = elim (Bool-cases (contains x ys)) [
  | inl c ↦ inl (x, ground (arith, str_eq_iff x x), c)
  | inr c ↦
      let rest = erase_first-Within x xs ms (ground arith) (λ j k. w j (ground arith)) in
      let other = erase_first-Within x ys ms c v in
      let one = length-erase_first x ms (w x (ground (arith, str_eq_iff x x))) in
      elim (meet_or_fit xs ys (erase_first x ms) (ground arith) e rest other) [
        | inl (z, a, b) ↦ inl (z, ground arith, b)
        | inr h ↦ inr (omega arith)
      ]
]

-- Two groups of members, each as large as getQuorums asks and naming nobody twice, have a member
-- in common: two candidates cannot win with the votes of disjoint groups.
pub quorums_meet :
    (r : Raft) (xs ys : List String)
    → distinct xs ≡ true
    → distinct ys ≡ true
    → Within xs r.meta.peers
    → Within ys r.meta.peers
    → get_quorums r ≤ length xs
    → get_quorums r ≤ length ys
    → Shared xs ys
unfolding get_quorums
quorums_meet r xs ys d e w v p q = elim (meet_or_fit xs ys r.meta.peers d e w v) [
  | inl s ↦ s
  | inr h ↦ absurd (omega arith)
]
