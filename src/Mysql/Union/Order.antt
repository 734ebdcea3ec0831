-- ===== src/Mysql/Union/Order.antt =====
-- What the sort of sort.go gives: the same intervals, by their starts.
use neoha.Common.{Bool, true, false, ◌&&◌, ◌||◌, ℕ, leb, List, [], ◌∷◌, ◌≡◌, refl, arith, ◌≤◌}
use neoha.Mysql.Union.{Interval, interval_leb, insert_interval, sort_intervals}

-- The number is in one of the intervals.
unfoldable pub covers : ℕ → List Interval → Bool
covers n [] = false
covers n ((s, e) ∷ xs) = (leb s n && leb n e) || covers n xs

-- All start at the number or later.
unfoldable pub starts_from : ℕ → List Interval → Bool
starts_from b [] = true
starts_from b ((s, e) ∷ xs) = leb b s && starts_from b xs

unfoldable pub in_order : List Interval → Bool
unfolding starts_from
in_order [] = true
in_order ((s, e) ∷ xs) = starts_from s xs && in_order xs

covers-insert :
    (n s e : ℕ) (xs : List Interval)
    → covers n (insert_interval (s, e) xs) ≡ ((leb s n && leb n e) || covers n xs)
unfolding covers insert_interval
covers-insert n s e [] = refl
covers-insert n s e ((s', e') ∷ xs) = ground (arith, covers-insert n s e xs)

pub covers-sort : (n : ℕ) (xs : List Interval) → covers n (sort_intervals xs) ≡ covers n xs
unfolding covers sort_intervals
covers-sort n [] = refl
covers-sort n ((s, e) ∷ xs) =
    ground (arith, covers-insert n s e (sort_intervals xs), covers-sort n xs)

starts_from-weaken :
    (a b : ℕ) (xs : List Interval) → a ≤ b → starts_from b xs ≡ true → starts_from a xs ≡ true
unfolding starts_from
starts_from-weaken a b [] l h = refl
starts_from-weaken a b ((s, e) ∷ xs) l h = ground (arith, starts_from-weaken a b xs)

starts_from-insert :
    (b s e : ℕ) (xs : List Interval)
    → starts_from b (insert_interval (s, e) xs) ≡ (leb b s && starts_from b xs)
unfolding starts_from insert_interval
starts_from-insert b s e [] = refl
starts_from-insert b s e ((s', e') ∷ xs) = ground (arith, starts_from-insert b s e xs)

in_order-insert :
    (s e : ℕ) (xs : List Interval)
    → in_order xs ≡ true
    → in_order (insert_interval (s, e) xs) ≡ true
unfolding in_order starts_from insert_interval interval_leb
in_order-insert s e [] h = refl
in_order-insert s e ((s', e') ∷ xs) h =
    ground (arith, in_order-insert s e xs, starts_from-insert s' s e xs, starts_from-weaken s s' xs)

pub sort-in_order : (xs : List Interval) → in_order (sort_intervals xs) ≡ true
unfolding in_order sort_intervals
sort-in_order [] = refl
sort-in_order ((s, e) ∷ xs) = in_order-insert s e (sort_intervals xs) (sort-in_order xs)
