-- ===== src/Prelude/Names.antt =====
-- Names (Go strings that are only compared), and how often a name stands in a list.
use Prim.Native.Nat.{ℕ, suc, ◌+◌, ◌-◌, ◌≤◌, ◌<◌}
use Prim.Native.String.{String, compare}
use text.Mathlib.Text.{◌==◌ as str_eq, is_le}
use text.Mathlib.TextEquality.{eq_iff}
use text.Mathlib.TextPositions.{eq_refl}
use mathlib.Core.Path.{◌≡◌, refl}
use mathlib.Core.Bool.{Bool, true, false, ◌||◌}
use mathlib.Core.List.{List, [], ◌∷◌, ◌++◌}
use native.Mathlib.Decide.{dec_lt}
use native.Mathlib.Omega.{arith}
use gapi.Prelude.Tests.{ltb, if◌then◌else◌}
use gapi.Prelude.Lists.{length, filter}

-- `a == b` on strings.
unfoldable pub same : String → String → Bool
same a b = str_eq a b

pub same_refl : (a : String) → same a a ≡ true
unfolding same
same_refl a = eq_refl a

pub eq_of_same : (a b : String) → same a b ≡ true → a ≡ b
unfolding same
eq_of_same a b h = (eq_iff a b).0 h

unfoldable pub elem : String → List String → Bool
elem x [] = false
elem x (y ∷ ys) = same y x || elem x ys

unfoldable pub count : String → List String → ℕ
count x [] = 0
count x (y ∷ ys) = (if same y x then 1 else 0) + count x ys

pub count-append : (x : String) (xs ys : List String) → count x (xs ++ ys) ≡ count x xs + count x ys
unfolding count
count-append x [] ys = omega arith
count-append x (y ∷ xs) ys = ground (arith, count-append x xs ys)

pub elem_lem : (x : String) (xs : List String) → elem x xs ≡ ltb 0 (count x xs)
unfolding elem count
elem_lem x [] = refl
elem_lem x (y ∷ ys) = ground (arith, elem_lem x ys)

pub elem-append : (x : String) (xs ys : List String) → elem x (xs ++ ys) ≡ (elem x xs || elem x ys)
unfolding elem
elem-append x [] ys = refl
elem-append x (y ∷ xs) ys = ground (arith, elem-append x xs ys)

pub count-filter :
    (p : String → Bool) (x : String) (xs : List String)
    → count x (filter p xs) ≡ (if p x then count x xs else 0)
unfolding count filter
count-filter p x [] = ground arith
count-filter p x (y ∷ ys) = ground (arith, count-filter p x ys, eq_of_same y x)

-- `sort.Strings`: the bytewise order, by insertion.
abbrev str_leb : String → String → Bool
str_leb a b = is_le (compare a b)

insert : String → List String → List String
insert x [] = x ∷ []
insert x (y ∷ ys) = if str_leb x y then x ∷ y ∷ ys else y ∷ insert x ys

unfoldable pub sort_strings : List String → List String
unfolding insert
sort_strings [] = []
sort_strings (x ∷ xs) = insert x (sort_strings xs)

count-insert : (a x : String) (xs : List String) → count a (insert x xs) ≡ count a (x ∷ xs)
unfolding count insert
count-insert a x [] = refl
count-insert a x (y ∷ ys) = ground (arith, count-insert a x ys)

-- Sorting keeps every name as often as it stood.
pub count-sort_strings : (a : String) (xs : List String) → count a (sort_strings xs) ≡ count a xs
unfolding count sort_strings
count-sort_strings a [] = refl
count-sort_strings a (x ∷ xs) =
    ground (arith, count-insert a x (sort_strings xs), count-sort_strings a xs)

erase : String → List String → List String
erase x [] = []
erase x (y ∷ ys) = if same y x then ys else y ∷ erase x ys

count-erase :
    (a x : String) (ys : List String)
    → count a (erase x ys) ≡ count a ys - (if same x a then 1 else 0)
unfolding count erase
count-erase a x [] = ground arith
count-erase a x (y ∷ ys) =
    ground (arith, count-erase a x ys, eq_of_same y x, eq_of_same x a, same_refl a, same_refl x)

length-erase :
    (x : String) (ys : List String) → 0 < count x ys → suc (length (erase x ys)) ≡ length ys
unfolding count erase
length-erase x [] h = absurd (omega arith)
length-erase x (y ∷ ys) h = ground (arith, length-erase x ys)

-- A list with no name more often than another is no longer.
pub length-le_of_count :
    (xs ys : List String) → ((x : String) → count x xs ≤ count x ys) → length xs ≤ length ys
unfolding count
length-le_of_count [] ys h = omega arith
length-le_of_count (x ∷ xs) ys h =
    omega (arith, length-le_of_count xs (erase x ys) rest, length-erase x ys some_x)
  where
    some_x : 0 < count x ys
    some_x = ground (arith, h x, same_refl x)

    rest : (a : String) → count a xs ≤ count a (erase x ys)
    rest a = ground (arith, h a, count-erase a x ys)

-- If it is also no shorter, it holds the same names as often.
pub count-eq_of_length :
    (xs ys : List String)
    → ((x : String) → count x xs ≤ count x ys)
    → length ys ≤ length xs
    → (x : String) → count x xs ≡ count x ys
unfolding count
count-eq_of_length xs ys h l x = elim (dec_lt (count x xs) (count x ys)) [
  | yes less ↦ absurd (omega (arith, length-le_of_count (x ∷ xs) ys (more less)))
  | no equal ↦ omega (arith, h x)
]
  where
    more : count x xs < count x ys → (a : String) → count a (x ∷ xs) ≤ count a ys
    more less a = ground (arith, h a, eq_of_same x a)
