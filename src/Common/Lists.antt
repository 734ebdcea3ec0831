-- ===== src/Common/Lists.antt =====
-- Lists measured by native numbers, and lists of texts read as sets.
use Prim.Native.Nat.{ℕ, suc, ◌+◌}
use Prim.Native.String.{String}
use mathlib.Core.Bool.{Bool, true, false, not, ◌&&◌, ◌||◌}
use mathlib.Core.List.{List, [], ◌∷◌, ◌++◌}
use mathlib.Core.Path.{◌≡◌, refl}
use native.Mathlib.Omega.{arith}
use neoha.Common.Tests.{if◌then◌else◌, str_eq, str_eq_iff, str_eq_comm}

module _ {ℓ} {A : Type ℓ} where
  abbrev pub length : List A → ℕ
  length [] = 0
  length (x ∷ xs) = suc (length xs)

  pub length-append : (xs ys : List A) → length (xs ++ ys) ≡ length xs + length ys
  length-append [] ys = omega arith
  length-append (x ∷ xs) ys = omega (arith, length-append xs ys)

abbrev pub contains : String → List String → Bool
contains k [] = false
contains k (x ∷ xs) = str_eq x k || contains k xs

-- `delete(m, k)` on the keys of a map: every entry that is equal to `k` goes.
abbrev pub delete : String → List String → List String
delete k [] = []
delete k (x ∷ xs) = let rest = delete k xs in if str_eq x k then rest else x ∷ rest

-- The first entry that is equal to `k` goes.
abbrev pub erase_first : String → List String → List String
erase_first k [] = []
erase_first k (x ∷ xs) = let rest = x ∷ erase_first k xs in if str_eq x k then xs else rest

-- No entry twice.
abbrev pub distinct : List String → Bool
distinct [] = true
distinct (x ∷ xs) = not (contains x xs) && distinct xs

pub contains-append :
    (k : String) (xs ys : List String) → contains k (xs ++ ys) ≡ (contains k xs || contains k ys)
contains-append k [] ys = refl
contains-append k (x ∷ xs) ys = ground (arith, contains-append k xs ys)

pub contains-delete :
    (k j : String) (xs : List String)
    → contains j (delete k xs) ≡ (not (str_eq k j) && contains j xs)
contains-delete k j [] = ground arith
contains-delete k j (x ∷ xs) =
    ground (arith, str_eq_iff x k, str_eq_iff x j, str_eq_iff k j, contains-delete k j xs)

pub erase_first-absent :
    (k : String) (xs : List String) → contains k xs ≡ false → erase_first k xs ≡ xs
erase_first-absent k [] h = refl
erase_first-absent k (x ∷ xs) h = ground (arith, erase_first-absent k xs)

pub contains-erase_first :
    (k j : String) (xs : List String)
    → distinct xs ≡ true
    → contains j (erase_first k xs) ≡ (not (str_eq k j) && contains j xs)
contains-erase_first k j [] h = ground arith
contains-erase_first k j (x ∷ xs) h =
    ground (arith, str_eq_iff x k, str_eq_iff x j, str_eq_iff k j, contains-erase_first k j xs)

pub distinct-erase_first :
    (k : String) (xs : List String) → distinct xs ≡ true → distinct (erase_first k xs) ≡ true
distinct-erase_first k [] h = refl
distinct-erase_first k (x ∷ xs) h =
    ground (arith, contains-erase_first k x xs, distinct-erase_first k xs)

pub distinct-append_one :
    (k : String) (xs : List String)
    → distinct xs ≡ true
    → contains k xs ≡ false
    → distinct (xs ++ k ∷ []) ≡ true
distinct-append_one k [] h q = refl
distinct-append_one k (x ∷ xs) h q =
    ground (arith, contains-append x xs (k ∷ []), str_eq_comm x k, distinct-append_one k xs)
