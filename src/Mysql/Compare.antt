-- ===== src/Mysql/Compare.antt =====
-- internal/database/mysql/api.go: GTIDGreaterThan, by which a node compares its data with that of a
-- candidate. In semi-sync that is the position in the binlog, and then the lag.
use Prim.Native.Char.{code}
use Prim.Native.String.{◌++◌}
use neoha.Common.{
  Bool, true, false, ◌&&◌, ℕ, zero, suc, ◌-◌, ltb, leb, String, if◌then◌else◌, ◌≡◌, refl, arith,
}
use neoha.Common.Result.{Result, ok, err}
use neoha.Common.Text.{ℤ, pos, negsuc, itoa, atoi}
use neoha.Raft.Wire.{Gtid, is_mgr}
use neoha.Mysql.{Server, M, ◌>>=◌, ◌>>◌, return, attempt, get_db}
use neoha.Mysql.Handler.{gtid_bigger}
use neoha.Mysql.Api.{get_gtid}
use neoha.Mysql.Union.{gtid_set_union}

-- `strings.ToUpper` of a letter; the names of binlogs are in ASCII.
abbrev upper : ℕ → ℕ
upper c = if leb b'a' c && leb c b'z' then c - 32 else c

pub data Compared : Type 0 where
  less same more : Compared

abbrev pub then_by : Compared → Compared → Compared
then_by less r = less
then_by same r = r
then_by more r = more

abbrev pub compare_codes : ℕ → ℕ → Compared
compare_codes a b = if ltb a b then less else if ltb b a then more else same

-- `strings.Compare` of two texts in upper case.
unfoldable pub compare_upper : String → String → Compared
compare_upper String.[] String.[] = same
compare_upper String.[] (String.◌∷◌ d t) = less
compare_upper (String.◌∷◌ c s) String.[] = more
compare_upper (String.◌∷◌ c s) (String.◌∷◌ d t) =
    then_by (compare_codes (upper (code c)) (upper (code d))) (compare_upper s t)

zeros : ℕ → String
zeros zero = ""
zeros (suc n) = "0" ++ zeros n

text_length : String → ℕ
text_length String.[] = 0
text_length (String.◌∷◌ c s) = suc (text_length s)

-- `fmt.Sprintf("%s:%016d", …)`.
unfoldable pub binlog_position : Gtid → String
unfolding zeros text_length
binlog_position g =
    let n = itoa g.read_master_log_pos in
    g.master_log_file ++ ":" ++ zeros (16 - text_length n) ++ n

unfoldable pub int_lt : ℤ → ℤ → Bool
int_lt (pos m) (pos n) = ltb m n
int_lt (pos m) (negsuc n) = false
int_lt (negsuc m) (pos n) = true
int_lt (negsuc m) (negsuc n) = ltb n m

abbrev less_lag : ℤ × Bool → ℤ × Bool → Bool
less_lag (a, fine) (b, good) = fine && good && int_lt a b

abbrev ahead : Compared → Bool → Bool
ahead less l = false
ahead same l = l
ahead more l = true

-- What `SemiSyncGTIDGreaterThan` answers for the data of this node and of another.
unfoldable pub semi_sync_greater : Gtid → Gtid → Bool
unfolding compare_upper binlog_position int_lt
semi_sync_greater this from =
    ahead (compare_upper (binlog_position this) (binlog_position from))
      (less_lag (atoi this.seconds_behind_master) (atoi from.seconds_behind_master))

abbrev or_not : Result Bool → Bool
or_not (ok b) = b
or_not (err e) = false

module _ (s : Server) where
  -- `MGRGTIDGreaterThan`: an error of the comparison is taken for no.
  unfoldable pub mgr_greater_than : Gtid → M (Bool × Gtid)
  mgr_greater_than from = get_gtid s >>= λ this.
      get_db s
      >> attempt (
          gtid_bigger s (gtid_set_union this.executed_gtid_set this.retrieved_gtid_set)
            (gtid_set_union from.executed_gtid_set from.retrieved_gtid_set))
      >>= λ res. return (or_not res, this)

  -- `GTIDGreaterThan`.
  unfoldable pub gtid_greater_than : Gtid → M (Bool × Gtid)
  unfolding semi_sync_greater
  gtid_greater_than from m =
      if is_mgr m.conf.repl_mode
      then mgr_greater_than from m
      else (get_gtid s >>= λ this. return (semi_sync_greater this from, this)) m

abbrev flipped : Compared → Compared
flipped less = more
flipped same = same
flipped more = less

compare_codes-flipped : (a b : ℕ) → compare_codes b a ≡ flipped (compare_codes a b)
compare_codes-flipped a b = ground (arith)

then_by-flipped : (a b : Compared) → then_by (flipped a) (flipped b) ≡ flipped (then_by a b)
then_by-flipped less b = refl
then_by-flipped same b = refl
then_by-flipped more b = refl

compare_upper-flipped : (s t : String) → compare_upper t s ≡ flipped (compare_upper s t)
unfolding compare_upper
compare_upper-flipped String.[] String.[] = refl
compare_upper-flipped String.[] (String.◌∷◌ d t) = refl
compare_upper-flipped (String.◌∷◌ c s) String.[] = refl
compare_upper-flipped (String.◌∷◌ c s) (String.◌∷◌ d t) =
    rw (compare_codes-flipped (upper (code c)) (upper (code d)), compare_upper-flipped s t)
      (then_by-flipped (compare_codes (upper (code c)) (upper (code d))) (compare_upper s t))

int_lt-asym : (a b : ℤ) → (int_lt a b && int_lt b a) ≡ false
unfolding int_lt
int_lt-asym (pos m) (pos n) = ground (arith)
int_lt-asym (pos m) (negsuc n) = refl
int_lt-asym (negsuc m) (pos n) = refl
int_lt-asym (negsuc m) (negsuc n) = ground (arith)

ahead_once :
    (r : Compared) (x y : ℤ × Bool)
    → (ahead r (less_lag x y) && ahead (flipped r) (less_lag y x)) ≡ false
ahead_once less x y = refl
ahead_once same (a, f) (b, g) = ground (arith, int_lt-asym a b)
ahead_once more x y = refl

-- Of two nodes in semi-sync never each has more data than the other: SemiSyncGTIDGreaterThan is
-- not true of two sets of data in both orders, whatever their binlog files, positions and lags
-- are, also where a lag is no number.
pub semi_sync_greater-asym : (g h : Gtid) → (semi_sync_greater g h && semi_sync_greater h g) ≡ false
unfolding semi_sync_greater
semi_sync_greater-asym g h = rw (compare_upper-flipped (binlog_position g) (binlog_position h)) (
    ahead_once (compare_upper (binlog_position g) (binlog_position h))
      (atoi g.seconds_behind_master) (atoi h.seconds_behind_master))
