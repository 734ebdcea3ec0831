-- ===== src/Mysql/Union/Members.antt =====
-- GTIDSetUnion keeps the transactions: it joins intervals without adding one or losing one.
use neoha.Common.{
  true, ◌&&◌, ◌||◌, ℕ, leb, List, [], ◌∷◌, ◌≡◌, refl, arith, ◌∙◌, map, String, str_eq, str_eq_iff,
  ◌++◌, Bool, false,
}
use neoha.Mysql.Union.{
  Group, add_group, group_all, union_groups, Interval, merge_from, merge, union_set, sort_intervals,
  reaches, larger,
}
use neoha.Mysql.Union.Order.{covers, starts_from, in_order, covers-sort, sort-in_order}

covers-merge_from :
    (n s e : ℕ) (xs : List Interval)
    → starts_from s xs ≡ true
    → in_order xs ≡ true
    → covers n (merge_from s e xs) ≡ ((leb s n && leb n e) || covers n xs)
unfolding covers merge_from reaches larger in_order starts_from
covers-merge_from n s e [] h k = refl
covers-merge_from n s e ((s', e') ∷ xs) h k =
    ground (arith, covers-merge_from n s (larger e e') xs, covers-merge_from n s' e' xs)

covers-merge : (n : ℕ) (xs : List Interval) → in_order xs ≡ true → covers n (merge xs) ≡ covers n xs
unfolding covers merge in_order
covers-merge n [] k = refl
covers-merge n ((s, e) ∷ xs) k = ground (arith, covers-merge_from n s e xs)

pub covers-union_set : (n : ℕ) (xs : List Interval) → covers n (union_set xs) ≡ covers n xs
unfolding union_set
covers-union_set n xs = covers-merge n (sort_intervals xs) (sort-in_order xs) ∙ covers-sort n xs

-- A transaction of a server is in the set.
unfoldable pub holds : String → ℕ → List Group → Bool
unfolding covers
holds u n [] = false
holds u n ((v, is) ∷ gs) = (str_eq v u && covers n is) || holds u n gs

covers-append : (n : ℕ) (xs ys : List Interval) → covers n (xs ++ ys) ≡ (covers n xs || covers n ys)
unfolding covers
covers-append n [] ys = refl
covers-append n ((s, e) ∷ xs) ys = ground (arith, covers-append n xs ys)

holds-add_group :
    (u : String) (n : ℕ) (v : String) (is : List Interval) (gs : List Group)
    → holds u n (add_group (v, is) gs) ≡ ((str_eq v u && covers n is) || holds u n gs)
unfolding holds add_group
holds-add_group u n v is [] = refl
holds-add_group u n v is ((w, js) ∷ gs) = ground (
  arith,
  holds-add_group u n v is gs,
  covers-append n js is,
  str_eq_iff w v,
  str_eq_iff w u,
  str_eq_iff v u,
)

holds-group_all :
    (u : String) (n : ℕ) (acc gs : List Group)
    → holds u n (group_all acc gs) ≡ (holds u n acc || holds u n gs)
unfolding holds group_all
holds-group_all u n acc [] = ground (arith)
holds-group_all u n acc ((v, is) ∷ gs) =
    ground (arith, holds-group_all u n (add_group (v, is) acc) gs, holds-add_group u n v is acc)

holds-map :
    (u : String) (n : ℕ) (gs : List Group)
    → holds u n (map (λ g. (g.0, union_set g.1)) gs) ≡ holds u n gs
unfolding holds
holds-map u n [] = refl
holds-map u n ((v, is) ∷ gs) = ground (arith, holds-map u n gs, covers-union_set n is)

-- GTIDSetUnion neither adds nor loses a transaction: a transaction of a server is in the groups
-- that it writes if and only if it is in one of the groups that it read, for intervals in any
-- order, overlapping, empty or ending at the largest int.
pub holds-union_groups :
    (u : String) (n : ℕ) (gs : List Group) → holds u n (union_groups gs) ≡ holds u n gs
unfolding union_groups holds
holds-union_groups u n gs = holds-map u n (group_all [] gs) ∙ holds-group_all u n [] gs
