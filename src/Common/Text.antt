-- ===== src/Common/Text.antt =====
-- What the program uses of Go's strings and strconv, on native texts.
use Prim.Native.Nat.{ℕ, zero, suc, ◌+◌, ◌-◌, ◌*◌, ◌/◌, ◌%◌, ◌^◌}
use Prim.Native.Char.{code}
use Prim.Native.String.{String, ◌++◌}
use mathlib.Core.Bool.{Bool, true, false, not, ◌&&◌, ◌||◌}
use mathlib.Core.List.{List, [], ◌∷◌}
use mathlib.Core.Option.{Option, none, some}
use mathlib.Core.Path.{◌≡◌, refl}
use neoha.Common.Tests.{if◌then◌else◌, ltb, leb, ◌==◌}

abbrev pub is_empty : String → Bool
is_empty String.[] = true
is_empty (String.◌∷◌ c s) = false

-- `strings.Contains` of one character.
abbrev pub has : ℕ → String → Bool
has k String.[] = false
has k (String.◌∷◌ c s) = code c == k || has k s

-- `strings.HasPrefix` and `strings.Contains`.
unfoldable pub has_prefix : String → String → Bool
has_prefix String.[] s = true
has_prefix (String.◌∷◌ c p) String.[] = false
has_prefix (String.◌∷◌ c p) (String.◌∷◌ d s) = code c == code d && has_prefix p s

unfoldable pub contains : String → String → Bool
contains p String.[] = is_empty p
contains p (String.◌∷◌ c s) = has_prefix p (String.◌∷◌ c s) || contains p s

abbrev grow : String → List String → List String
grow c [] = c ∷ []
grow c (p ∷ ps) = (c ++ p) ∷ ps

-- `strings.Split` at one character: never an empty list.
unfoldable pub split : ℕ → String → List String
split k String.[] = "" ∷ []
split k (String.◌∷◌ c s) =
    let rest = split k s in if code c == k then "" ∷ rest else grow (String.◌∷◌ c String.[]) rest

-- `strings.Join`.
unfoldable pub join : String → List String → String
join sep [] = ""
join sep (p ∷ []) = p
join sep (p ∷ q ∷ ps) = p ++ sep ++ join sep (q ∷ ps)

-- `unicode.IsSpace`.
abbrev is_space : ℕ → Bool
is_space c =
    (leb 9 c && leb c 13)
    || c == 32
    || c == 0x85
    || c == 0xA0
    || c == 0x1680
    || (leb 0x2000 c && leb c 0x200A)
    || c == 0x2028
    || c == 0x2029
    || c == 0x202F
    || c == 0x205F
    || c == 0x3000

trim_left : String → String
trim_left String.[] = String.[]
trim_left (String.◌∷◌ c s) =
    let rest = trim_left s in if is_space (code c) then rest else String.◌∷◌ c s

abbrev drop_space : ℕ → String → String → String
drop_space c s String.[] = if is_space c then String.[] else s
drop_space c s (String.◌∷◌ d t) = s

trim_right : String → String
trim_right String.[] = String.[]
trim_right (String.◌∷◌ c s) =
    let rest = trim_right s in drop_space (code c) (String.◌∷◌ c rest) rest

-- `strings.TrimSpace`.
unfoldable pub trim_space : String → String
unfolding trim_left trim_right
trim_space s = trim_right (trim_left s)

digit : ℕ → String
digit d =
    if d == 0
    then "0"
    else if d == 1
    then "1"
    else if d == 2
    then "2"
    else if d == 3
    then "3"
    else if d == 4
    then "4"
    else if d == 5
    then "5"
    else if d == 6
    then "6"
    else if d == 7
    then "7"
    else if d == 8
    then "8"
    else "9"

digits : ℕ → ℕ → String
unfolding digit
digits zero n = ""
digits (suc f) n =
    let rest = digits f (n / 10) in if ltb n 10 then digit n else rest ++ digit (n % 10)

-- `strconv.Itoa` of a number that is not negative. Twenty digits hold every int.
unfoldable pub itoa : ℕ → String
unfolding digits
itoa n = digits 20 n

-- `strconv.ParseUint` from the value `n` on: `none` is a syntax error; a value out of range ends the
-- scan as the largest one.
scan : ℕ → String → Option ℕ
scan n String.[] = some n
scan n (String.◌∷◌ c s) =
    let n' = n * 10 + (code c - b'0') in
    let rest = scan n' s in
    if not (leb b'0' (code c) && leb (code c) b'9')
    then none
    else if leb n' (2 ^ 64 - 1)
    then rest
    else some (2 ^ 64 - 1)

-- `strconv.ParseUint`, whose error is dropped.
unfoldable pub parse_uint : String → ℕ
unfolding scan
parse_uint s = elim (scan 0 s) [ none ↦ 0 | some n ↦ n ]

abbrev pub max_int : ℕ
max_int = 2 ^ 63 - 1

-- The value that `strconv.Atoi` returns for a text without a sign, and whether there is no error.
unfoldable pub parse_digits : String → ℕ × Bool
unfolding scan
parse_digits s = elim (scan 0 s) [
  | none ↦ (0, false)
  | some n ↦
      if is_empty s then (0, false) else if leb n max_int then (n, true) else (max_int, false)
]

-- Go's int.
pub data ℤ : Type 0 where
  pos : ℕ → ℤ
  negsuc : ℕ → ℤ

abbrev pub is_positive : ℤ → Bool
is_positive (pos n) = ltb 0 n
is_positive (negsuc n) = false

abbrev pub is_zero : ℤ → Bool
is_zero (pos n) = n == 0
is_zero (negsuc n) = false

-- `strconv.Atoi` after a minus sign: a value out of range is returned as the smallest one.
negated : Option ℕ → ℤ × Bool
negated none = (pos 0, false)
negated (some n) =
    if n == 0
    then (pos 0, true)
    else if leb n (max_int + 1)
    then (negsuc (n - 1), true)
    else (negsuc max_int, false)

-- `strconv.Atoi`.
unfoldable pub atoi : String → ℤ × Bool
unfolding parse_digits negated scan
atoi String.[] = (pos 0, false)
atoi (String.◌∷◌ c s) =
    let (n, fine) = parse_digits s in
    let (m, good) = parse_digits (String.◌∷◌ c s) in
    if code c == b'+'
    then (pos n, fine)
    else if code c == b'-'
    then (if is_empty s then (pos 0, false) else negated (scan 0 s))
    else (pos m, good)

split_example : split b',' "a,b,,c" ≡ "a" ∷ "b" ∷ "" ∷ "c" ∷ []
unfolding split
split_example = refl

trim_example : trim_space " nop \t" ≡ "nop"
unfolding trim_space
trim_example = refl

itoa_example : itoa 9223372036854775807 ≡ "9223372036854775807"
unfolding itoa
itoa_example = refl

atoi_example : atoi "-12" ≡ (negsuc 11, true)
unfolding atoi
atoi_example = refl

atoi_overflow : atoi "9223372036854775808" ≡ (pos 9223372036854775807, false)
unfolding atoi
atoi_overflow = refl
