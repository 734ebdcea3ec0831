-- ===== src/Mysql/Handler/Diff.antt =====
-- internal/database/mysql/mysqlbase.go: the number that GTIDDiff reads off the set of transactions
-- which GTID_SUBTRACT answers, like "uuid:100:1003-1005".
use neoha.Common.{ℕ, ◌+◌, ◌-◌, leb, String, List, [], ◌∷◌, if◌then◌else◌, ◌≡◌, refl, ◌%◌, ◌^◌}
use neoha.Common.Result.{Result, ok, err, Error}
use neoha.Common.Text.{join, split, atoi, itoa, is_empty, ℤ, pos, negsuc}

-- Go's int in the 64 bits of its two's complement.
abbrev pub bits : ℤ → ℕ
bits (pos n) = n % 2 ^ 64
bits (negsuc n) = (2 ^ 64 - (n + 1)) % 2 ^ 64

print_int : ℕ → String
print_int n = if leb (2 ^ 63) n then join "" ("-" ∷ itoa (2 ^ 64 - n) ∷ []) else itoa n

abbrev syntax : String → Error
syntax v = Error.plain v

-- The transactions of one part, a number or an interval.
part_length : List String → Result ℕ
part_length [] = ok 0
part_length (v ∷ []) = let (b, fine) = atoi v in if fine then ok 1 else err (syntax v)
part_length (v ∷ w ∷ vs) =
    let (b, fine) = atoi v in
    let (e, good) = atoi w in
    if fine
    then (if good then ok ((bits e + (2 ^ 64 - bits b) + 1) % 2 ^ 64) else err (syntax w))
    else err (syntax v)

parts_length : ℕ → List String → Result ℕ
unfolding part_length
parts_length diff [] = ok diff
parts_length diff (p ∷ ps) = elim (part_length (split b'-' p)) [
  | ok k ↦ parts_length ((diff + k) % 2 ^ 64) ps
  | err e ↦ err e
]

abbrev tail : List String → List String
tail [] = []
tail (p ∷ ps) = ps

unfoldable pub gtid_length : String → Result String
unfolding parts_length print_int
gtid_length res =
    if is_empty res
    then ok "0"
    else elim (parts_length 0 (tail (split b':' res))) [ ok k ↦ ok (print_int k) | err e ↦ err e ]

gtid_length_example : gtid_length "3E11FA47:100:1003-1005" ≡ ok "4"
unfolding gtid_length split atoi itoa
gtid_length_example = refl

-- A set with the transactions of two servers has no number.
gtid_length_two_servers : gtid_length "3E11-FA47:1-5,\n4E11-FA47:7" ≡ err (Error.plain "5,\n4E11")
unfolding gtid_length split atoi itoa
gtid_length_two_servers = refl
