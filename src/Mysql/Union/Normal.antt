-- ===== src/Mysql/Union/Normal.antt =====
-- The form of the sets that GTIDSetUnion writes: the intervals of a server in their order, with a
-- gap between each two. Where no number is too large for that, there is one such form for a set.
use neoha.Common.{
  Bool, true, ◌&&◌, ℕ, ◌+◌, ◌<◌, ◌≤◌, ltb, leb, List, [], ◌∷◌, ◌≡◌, refl, arith, ◌∙◌,
}
use neoha.Common.Text.{max_int}
use neoha.Mysql.Union.{
  Interval, merge_from, merge, union_set, sort_intervals, insert_interval, reaches, larger,
}
use neoha.Mysql.Union.Order.{starts_from, in_order, sort-in_order}

-- Each interval has a number, and none is the largest int.
unfoldable pub proper : List Interval → Bool
proper [] = true
proper ((s, e) ∷ xs) = leb s e && ltb e max_int && proper xs

-- Between each two intervals is a gap.
unfoldable pub separate : List Interval → Bool
unfolding starts_from
separate [] = true
separate ((s, e) ∷ xs) = leb s e && starts_from (e + 2) xs && separate xs

proper-insert :
    (s e : ℕ) (xs : List Interval)
    → proper (insert_interval (s, e) xs) ≡ (leb s e && ltb e max_int && proper xs)
unfolding proper insert_interval
proper-insert s e [] = refl
proper-insert s e ((s', e') ∷ xs) = ground (arith, proper-insert s e xs)

proper-sort : (xs : List Interval) → proper (sort_intervals xs) ≡ proper xs
unfolding proper sort_intervals
proper-sort [] = refl
proper-sort ((s, e) ∷ xs) = ground (arith, proper-insert s e (sort_intervals xs), proper-sort xs)

starts_from-merge_from :
    (b s e : ℕ) (xs : List Interval)
    → b ≤ s
    → starts_from s xs ≡ true
    → in_order xs ≡ true
    → starts_from b (merge_from s e xs) ≡ true
unfolding starts_from merge_from in_order reaches larger
starts_from-merge_from b s e [] l h k = ground (arith)
starts_from-merge_from b s e ((s', e') ∷ xs) l h k =
    ground (arith, starts_from-merge_from b s (larger e e') xs, starts_from-merge_from b s' e' xs)

separate-merge_from :
    (s e : ℕ) (xs : List Interval)
    → s ≤ e
    → e < max_int
    → starts_from s xs ≡ true
    → in_order xs ≡ true
    → proper xs ≡ true
    → separate (merge_from s e xs) ≡ true
unfolding separate starts_from merge_from in_order proper reaches larger
separate-merge_from s e [] l m h k p = ground (arith)
separate-merge_from s e ((s', e') ∷ xs) l m h k p = ground (
  arith,
  separate-merge_from s (larger e e') xs,
  separate-merge_from s' e' xs,
  starts_from-merge_from (e + 2) s' e' xs,
)

separate-merge :
    (xs : List Interval) → in_order xs ≡ true → proper xs ≡ true → separate (merge xs) ≡ true
unfolding separate merge in_order proper
separate-merge [] k p = refl
separate-merge ((s, e) ∷ xs) k p = ground (arith, separate-merge_from s e xs)

pub union_set-separate : (xs : List Interval) → proper xs ≡ true → separate (union_set xs) ≡ true
unfolding union_set
union_set-separate xs p = separate-merge (sort_intervals xs) (sort-in_order xs) (proper-sort xs ∙ p)
