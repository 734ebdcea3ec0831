-- ===== src/Common/Result.antt =====
-- Errors as values, and the chain of fallible steps.
use Prim.Native.Nat.{ℕ}
use Prim.Native.String.{String}
use mathlib.Core.Bool.{Bool, true, false}

-- An error with its text; one that the MySQL server reported carries its number.
pub data Error : Type 0 where
  plain : String → Error
  mysql_error : ℕ → String → Error

pub data Result {ℓ} (A : Type ℓ) : Type ℓ where
  ok : A → Result A
  err : Error → Result A

abbrev pub is_ok {ℓ} : {A : Type ℓ} → Result A → Bool
is_ok (ok a) = true
is_ok (err e) = false
