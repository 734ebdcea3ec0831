-- ===== src/Mysql/Union.antt =====
-- internal/database/mysql/api.go: GTIDSetUnion, with the order of sort.go. A set is a text like
-- "uuid_a:2:5-7,uuid_b:4".
pub mod Order
pub mod Members
pub mod Normal
pub mod Unique
use Prim.Native.Char.{code}
use neoha.Common.{
  Bool, true, false, not, ◌&&◌, ◌||◌, ℕ, ◌+◌, ltb, leb, ◌==◌, String, List, [], ◌∷◌, ◌++◌, map,
  if◌then◌else◌, ◌≡◌, refl, str_eq,
}
use neoha.Common.Text.{ℤ, pos, negsuc, split, join, itoa, atoi, is_empty, max_int}

abbrev pub Interval : Type 0
Interval = ℕ × ℕ

-- `ArraySlice.Less`, not strictly.
unfoldable pub interval_leb : Interval → Interval → Bool
interval_leb (s, e) (s', e') = ltb s s' || (s == s' && leb e e')

unfoldable pub insert_interval : Interval → List Interval → List Interval
unfolding interval_leb
insert_interval x [] = x ∷ []
insert_interval x (y ∷ ys) =
    let rest = insert_interval x ys in if interval_leb x y then x ∷ y ∷ ys else y ∷ rest

-- `sort.Sort` of the intervals.
unfoldable pub sort_intervals : List Interval → List Interval
unfolding insert_interval
sort_intervals [] = []
sort_intervals (x ∷ xs) = insert_interval x (sort_intervals xs)

-- `start <= end+1`, in Go's int.
unfoldable pub reaches : ℕ → ℕ → Bool
reaches start end = not (end == max_int) && leb start (end + 1)

unfoldable pub larger : ℕ → ℕ → ℕ
larger a b = if ltb a b then b else a

-- The loop over the sorted intervals, from the last one of the results on.
unfoldable pub merge_from : ℕ → ℕ → List Interval → List Interval
unfolding reaches larger
merge_from s e [] = (s, e) ∷ []
merge_from s e ((s', e') ∷ xs) =
    let joined = merge_from s (larger e e') xs in
    let apart = merge_from s' e' xs in if reaches s' e then joined else (s, e) ∷ apart

unfoldable pub merge : List Interval → List Interval
unfolding merge_from
merge [] = []
merge ((s, e) ∷ xs) = merge_from s e xs

unfoldable pub union_set : List Interval → List Interval
unfolding merge sort_intervals
union_set xs = merge (sort_intervals xs)

-- The value of a part between dashes: it has no sign but a plus, and an error leaves a value too.
abbrev value : ℤ × Bool → ℕ
value (pos n, fine) = n
value (negsuc n, fine) = 0

last_of : String → List String → String
last_of p [] = p
last_of p (q ∷ qs) = last_of q qs

unfoldable pub parse_interval : List String → Interval
unfolding last_of
parse_interval [] = (0, 0)
parse_interval (p ∷ ps) = (value (atoi p), value (atoi (last_of p ps)))

-- The intervals of one server.
abbrev pub Group : Type 0
Group = String × List Interval

unfoldable pub parse_group : List String → Group
unfolding parse_interval
parse_group [] = ("", [])
parse_group (uuid ∷ parts) = (uuid, map (λ p. parse_interval (split b'-' p)) parts)

unfoldable pub parse_set : String → List Group
unfolding parse_group
parse_set s = map (λ g. parse_group (split b':' g)) (split b',' s)

-- The map `res`, by the first entry of each server.
unfoldable pub add_group : Group → List Group → List Group
add_group g [] = g ∷ []
add_group (u, is) ((v, js) ∷ gs) =
    let rest = add_group (u, is) gs in if str_eq v u then (v, js ++ is) ∷ gs else (v, js) ∷ rest

unfoldable pub group_all : List Group → List Group → List Group
unfolding add_group
group_all acc [] = acc
group_all acc (g ∷ gs) = group_all (add_group g acc) gs

-- The union, server by server, before it is written.
unfoldable pub union_groups : List Group → List Group
unfolding group_all union_set
union_groups gs = map (λ g. (g.0, union_set g.1)) (group_all [] gs)

print_interval : Interval → String
print_interval (s, e) = if s == e then itoa s else join "-" (itoa s ∷ itoa e ∷ [])

print_group : Group → String
unfolding print_interval
print_group (u, is) = join ":" (u ∷ join ":" (map print_interval is) ∷ [])

-- `sort.StringSlice`.
text_leb : String → String → Bool
text_leb String.[] t = true
text_leb (String.◌∷◌ c s) String.[] = false
text_leb (String.◌∷◌ c s) (String.◌∷◌ d t) =
    ltb (code c) (code d) || (code c == code d && text_leb s t)

insert_text : String → List String → List String
unfolding text_leb
insert_text x [] = x ∷ []
insert_text x (y ∷ ys) =
    let rest = insert_text x ys in if text_leb x y then x ∷ y ∷ ys else y ∷ rest

sort_texts : List String → List String
unfolding insert_text
sort_texts [] = []
sort_texts (x ∷ xs) = insert_text x (sort_texts xs)

-- `GTIDSetUnion`.
unfoldable pub gtid_set_union : String → String → String
unfolding union_groups parse_set print_group sort_texts
gtid_set_union a b =
    if is_empty a
    then b
    else if is_empty b
    then a
    else join "," (sort_texts (map print_group (union_groups (parse_set a ++ parse_set b))))

gtid_set_union_example :
    gtid_set_union "uuid_b:2:5-7,uuid_a:4" "uuid_b:2:4-6:2,uuid_a:1-3" ≡ "uuid_a:1-4,uuid_b:2:4-7"
unfolding gtid_set_union join split str_eq atoi itoa
gtid_set_union_example = refl
