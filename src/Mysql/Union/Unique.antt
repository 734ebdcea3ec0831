-- ===== src/Mysql/Union/Unique.antt =====
-- Two texts that GTIDSetUnion writes differ only if the sets do: the form with gaps is unique.
use neoha.Common.{true, false, ℕ, ◌+◌, ◌<◌, ◌≤◌, List, [], ◌∷◌, ◌≡◌, refl, arith, ◌∙◌, sym, subst}
use neoha.Mysql.Union.{Interval, union_set}
use neoha.Mysql.Union.Order.{covers, starts_from}
use neoha.Mysql.Union.Members.{covers-union_set}
use neoha.Mysql.Union.Normal.{separate, proper, union_set-separate}

-- Before the first start there is nothing.
covers-before :
    (n b : ℕ) (xs : List Interval) → n < b → starts_from b xs ≡ true → covers n xs ≡ false
unfolding covers starts_from
covers-before n b [] l h = refl
covers-before n b ((s, e) ∷ xs) l h = ground (arith, covers-before n b xs)

abbrev Same : List Interval → List Interval → Type 0
Same xs ys = (n : ℕ) → covers n xs ≡ covers n ys

-- The first interval of one starts no later than that of the other, and ends no earlier.
first_start :
    (s e s' e' : ℕ) (xs ys : List Interval)
    → separate ((s, e) ∷ xs) ≡ true
    → separate ((s', e') ∷ ys) ≡ true
    → covers s ((s, e) ∷ xs) ≡ covers s ((s', e') ∷ ys)
    → s' ≤ s
unfolding covers separate
first_start s e s' e' xs ys h k eq = ground (arith, covers-before s (e' + 2) ys)

first_end :
    (s e s' e' : ℕ) (xs ys : List Interval)
    → separate ((s, e) ∷ xs) ≡ true
    → separate ((s', e') ∷ ys) ≡ true
    → s ≡ s'
    → covers (e + 1) ((s, e) ∷ xs) ≡ covers (e + 1) ((s', e') ∷ ys)
    → e' ≤ e
unfolding covers separate
first_end s e s' e' xs ys h k eq c = ground (arith, covers-before (e + 1) (e + 2) xs)

separate_tail : (s e : ℕ) (xs : List Interval) → separate ((s, e) ∷ xs) ≡ true → separate xs ≡ true
unfolding separate
separate_tail s e xs h = ground (arith)

rest_same :
    (n s e : ℕ) (xs ys : List Interval)
    → separate ((s, e) ∷ xs) ≡ true
    → separate ((s, e) ∷ ys) ≡ true
    → covers n ((s, e) ∷ xs) ≡ covers n ((s, e) ∷ ys)
    → covers n xs ≡ covers n ys
unfolding covers separate
rest_same n s e xs ys h k c = ground (arith, covers-before n (e + 2) xs, covers-before n (e + 2) ys)

pub separate_unique :
    (xs ys : List Interval)
    → separate xs ≡ true
    → separate ys ≡ true
    → ((n : ℕ) → covers n xs ≡ covers n ys)
    → xs ≡ ys
unfolding separate covers
separate_unique [] [] h k c = refl
separate_unique [] ((s', e') ∷ ys) h k c = absurd (ground (arith, c s'))
separate_unique ((s, e) ∷ xs) [] h k c = absurd (ground (arith, c s))
separate_unique ((s, e) ∷ xs) ((s', e') ∷ ys) h k c =
    let starts : s ≡ s' = ground (
      arith,
      first_start s e s' e' xs ys h k (c s),
      first_start s' e' s e ys xs k h (sym (c s')),
    ) in
    let ends : e ≡ e' = ground (
      arith,
      first_end s e s' e' xs ys h k starts (c (e + 1)),
      first_end s' e' s e ys xs k h (sym starts) (sym (c (e' + 1))),
    ) in
    let heads : ◌≡◌ {A = Interval} (s, e) (s', e') = cc in
    let k' = subst (λ (p : Interval). separate (p ∷ ys) ≡ true) (sym heads) k in
    let c' = λ (n : ℕ).
      subst (λ (p : Interval). covers n ((s, e) ∷ xs) ≡ covers n (p ∷ ys)) (sym heads) (c n) in
    let tails : xs ≡ ys =
      separate_unique xs ys (separate_tail s e xs h) (separate_tail s e ys k')
        (λ n. rest_same n s e xs ys h k' (c' n)) in
    cc

-- If no interval is empty or ends at the largest int, the intervals that GTIDSetUnion writes for
-- a server depend on the set of transactions only: two lists with the same transactions give the
-- same intervals.
pub union_set_unique :
    (xs ys : List Interval)
    → proper xs ≡ true
    → proper ys ≡ true
    → ((n : ℕ) → covers n xs ≡ covers n ys)
    → union_set xs ≡ union_set ys
union_set_unique xs ys p q c =
    separate_unique (union_set xs) (union_set ys) (union_set-separate xs p)
      (union_set-separate ys q) (λ n. covers-union_set n xs ∙ c n ∙ sym (covers-union_set n ys))
