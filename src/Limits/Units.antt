-- ===== src/Limits/Units.antt =====
-- Every unit means its factor, in capital and in small letters.
use gapi.Prelude.{
  ℕ, ◌+◌, ◌-◌, ◌*◌, ◌/◌, ◌^◌, ◌≤◌, ◌<◌, ◌≡◌, refl, ◌∙◌, ap, Bool, true, false, not, ◌&&◌, ◌||◌,
  List, [], ◌∷◌, ◌++◌, Option, none, some, ltb, leb, ◌==◌, arith, if◌then◌else◌,
}
use mathlib.Core.List.{append-nil}
use gapi.Limits.Bounds.{all_factors, find_unit-factor, below_bound}
use gapi.Prelude.Int.{pos}
use gapi.Prelude.Decimal.{is_digit, all_digits, value, parse_digits, parse_int, positive}
use gapi.Limits.{
  limit, max_int64, mem_units, same_codes, behind, cut_suffix, or_next, find_unit, scaled,
  parse_number, parse_memory, to_upper,
}

to_upper-append :
    (ds tail : List ℕ) → all_digits ds ≡ true → to_upper (ds ++ tail) ≡ ds ++ to_upper tail
unfolding to_upper all_digits
to_upper-append [] tail h = refl
to_upper-append (d ∷ ds) tail h =
    let capital : (leb 97 d && leb d 122) ≡ false = ground arith in
    rw capital (ap (λ r. d ∷ r) (to_upper-append ds tail (ground arith)))

-- Digits in front of a text stay in front of what is left when a suffix is cut that does not begin
-- with a digit.
after_digits : List ℕ → Option (List ℕ) → Option (List ℕ)
after_digits ds none = none
after_digits ds (some rest) = some (ds ++ rest)

after_no_digits : (o : Option (List ℕ)) → o ≡ after_digits [] o
unfolding after_digits
after_no_digits none = refl
after_no_digits (some rest) = refl

behind-after_digits :
    (d : ℕ) (ds : List ℕ) (o : Option (List ℕ))
    → behind d (after_digits ds o) ≡ after_digits (d ∷ ds) o
unfolding after_digits
behind-after_digits d ds none = refl
behind-after_digits d ds (some rest) = refl

cut_suffix-append :
    (x : ℕ) (xs ds tail : List ℕ)
    → is_digit x ≡ false
    → all_digits ds ≡ true
    → cut_suffix (x ∷ xs) (ds ++ tail) ≡ after_digits ds (cut_suffix (x ∷ xs) tail)
unfolding cut_suffix same_codes all_digits after_digits
cut_suffix-append x xs [] tail nx h = after_no_digits (cut_suffix (x ∷ xs) tail)
cut_suffix-append x xs (d ∷ ds) tail nx h =
    let other : (d == x) ≡ false = ground arith in
    rw other (
      ap (λ o. behind d o) (cut_suffix-append x xs ds tail nx (ground arith))
      ∙ behind-after_digits d ds (cut_suffix (x ∷ xs) tail))

-- The same, of the first unit that a text ends in.
on_number : List ℕ → Option (List ℕ × ℕ) → Option (List ℕ × ℕ)
on_number ds none = none
on_number ds (some (num, mult)) = some (ds ++ num, mult)

-- No suffix begins with a digit, and none is empty.
no_digit_first : List (List ℕ × ℕ) → Bool
no_digit_first [] = true
no_digit_first (([], mult) ∷ units) = false
no_digit_first ((x ∷ xs, mult) ∷ units) = not (is_digit x) && no_digit_first units

or_next-on_number :
    (ds : List ℕ) (mult : ℕ) (o : Option (List ℕ)) (rest : Option (List ℕ × ℕ))
    → or_next (after_digits ds o) mult (on_number ds rest) ≡ on_number ds (or_next o mult rest)
unfolding or_next after_digits on_number
or_next-on_number ds mult none rest = refl
or_next-on_number ds mult (some num) rest = refl

find_unit-append :
    (units : List (List ℕ × ℕ)) (ds tail : List ℕ)
    → no_digit_first units ≡ true
    → all_digits ds ≡ true
    → find_unit units (ds ++ tail) ≡ on_number ds (find_unit units tail)
unfolding find_unit no_digit_first on_number
find_unit-append [] ds tail ok h = refl
find_unit-append (([], mult) ∷ units) ds tail ok h = absurd cc
find_unit-append ((x ∷ xs, mult) ∷ units) ds tail ok h =
    ap (λ o. or_next o mult (find_unit units (ds ++ tail)))
      (cut_suffix-append x xs ds tail (ground arith) h)
    ∙ ap (λ r. or_next (after_digits ds (cut_suffix (x ∷ xs) tail)) mult r)
        (find_unit-append units ds tail (ground arith) h)
    ∙ or_next-on_number ds mult (cut_suffix (x ∷ xs) tail) (find_unit units tail)

no_sign : (d : ℕ) (ds : List ℕ) (n : ℕ) → all_digits (d ∷ ds) ≡ true → n < 48 → (d == n) ≡ false
unfolding all_digits
no_sign d ds n h lt = ground arith

-- Digits are read as the number that they spell, if it fits an `int64`.
parse_int-digits :
    (d : ℕ) (ds : List ℕ)
    → all_digits (d ∷ ds) ≡ true
    → value (d ∷ ds) ≤ max_int64
    → parse_int (d ∷ ds) ≡ some (pos (value (d ∷ ds)))
unfolding parse_int parse_digits positive
parse_int-digits d ds h fits =
    let room : ltb (value (d ∷ ds)) (2 ^ 63) ≡ true = ground arith in
    rw (no_sign d ds 43 h (omega arith), no_sign d ds 45 h (omega arith), h, room) refl

scaled_lem : (m v : ℕ) → 0 < v → v ≤ max_int64 / m → scaled m (some (pos v)) ≡ limit (v * m)
unfolding scaled
scaled_lem m v p h =
    let asked : leb v 0 ≡ false = ground arith in
    let fits : ltb (max_int64 / m) v ≡ false = ground arith in rw (asked, fits) refl

-- The units of memory, independently of the parser's table: what each is called, in capitals, and
-- how many bytes it stands for.
pub data MemoryUnit : Type 0 where
  gigabytes megabytes kilobytes bytes giga mega kilo : MemoryUnit

abbrev pub unit_name : MemoryUnit → List ℕ
unit_name gigabytes = 71 ∷ 66 ∷ []
unit_name megabytes = 77 ∷ 66 ∷ []
unit_name kilobytes = 75 ∷ 66 ∷ []
unit_name bytes = 66 ∷ []
unit_name giga = 71 ∷ []
unit_name mega = 77 ∷ []
unit_name kilo = 75 ∷ []

abbrev pub unit_bytes : MemoryUnit → ℕ
unit_bytes gigabytes = 1024 * 1024 * 1024
unit_bytes megabytes = 1024 * 1024
unit_bytes kilobytes = 1024
unit_bytes bytes = 1
unit_bytes giga = 1024 * 1024 * 1024
unit_bytes mega = 1024 * 1024
unit_bytes kilo = 1024

-- A text spells a name, each letter of it as it is or small.
unfoldable pub is_spelled : List ℕ → List ℕ → Bool
is_spelled [] [] = true
is_spelled [] (c ∷ cs) = false
is_spelled (x ∷ xs) [] = false
is_spelled (x ∷ xs) (c ∷ cs) = (c == x || c == x + 32) && is_spelled xs cs

all_capitals : List ℕ → Bool
all_capitals [] = true
all_capitals (x ∷ xs) = leb 65 x && leb x 90 && all_capitals xs

to_upper-is_spelled :
    (name tail : List ℕ)
    → all_capitals name ≡ true
    → is_spelled name tail ≡ true
    → to_upper tail ≡ name
unfolding to_upper is_spelled all_capitals
to_upper-is_spelled [] [] cap h = refl
to_upper-is_spelled [] (c ∷ cs) cap h = absurd cc
to_upper-is_spelled (x ∷ xs) [] cap h = absurd cc
to_upper-is_spelled (x ∷ xs) (c ∷ cs) cap h =
    let rest : to_upper cs ≡ xs = to_upper-is_spelled xs cs (ground arith) (ground arith) in
    let first : (if leb 97 c && leb c 122 then c - 32 else c) ≡ x = ground arith in
    rw (first, rest) refl

unit_name-all_capitals : (u : MemoryUnit) → all_capitals (unit_name u) ≡ true
unfolding all_capitals
unit_name-all_capitals gigabytes = refl
unit_name-all_capitals megabytes = refl
unit_name-all_capitals kilobytes = refl
unit_name-all_capitals bytes = refl
unit_name-all_capitals giga = refl
unit_name-all_capitals mega = refl
unit_name-all_capitals kilo = refl

-- The table of the parser has each unit's number of bytes, and in an order that finds the unit and
-- nothing in front of it.
find_unit-unit_name : (u : MemoryUnit) → find_unit mem_units (unit_name u) ≡ some ([], unit_bytes u)
unfolding find_unit cut_suffix same_codes or_next
find_unit-unit_name gigabytes = refl
find_unit-unit_name megabytes = refl
find_unit-unit_name kilobytes = refl
find_unit-unit_name bytes = refl
find_unit-unit_name giga = refl
find_unit-unit_name mega = refl
find_unit-unit_name kilo = refl

-- A limit of one decimal digit or more and one of the seven units, its letters capital or small, is
-- read as the number times the bytes of the unit (2 ^ 30 for GB and G, 2 ^ 20 for MB and M, 2 ^ 10
-- for KB and K, 1 for B), if this is positive and fits an `int64`.
pub parse_memory-append :
    (d : ℕ) (ds : List ℕ) (u : MemoryUnit) (tail : List ℕ)
    → all_digits (d ∷ ds) ≡ true
    → is_spelled (unit_name u) tail ≡ true
    → 0 < value (d ∷ ds)
    → value (d ∷ ds) * unit_bytes u ≤ max_int64
    → parse_memory ((d ∷ ds) ++ tail) ≡ limit (value (d ∷ ds) * unit_bytes u)
unfolding parse_memory parse_number on_number no_digit_first all_factors
parse_memory-append d ds u tail digits spelled p h =
    let upper = to_upper-is_spelled (unit_name u) tail (unit_name-all_capitals u) spelled in
    let unit = ap (find_unit mem_units) upper ∙ find_unit-unit_name u in
    let factor = find_unit-factor mem_units (to_upper tail) [] (unit_bytes u) refl unit in
    let (bound, fits) = below_bound (value (d ∷ ds)) (unit_bytes u) factor h in
    ap (λ t. parse_number (find_unit mem_units t)) (to_upper-append (d ∷ ds) tail digits)
    ∙ ap parse_number (find_unit-append mem_units (d ∷ ds) (to_upper tail) refl digits)
    ∙ ap (λ o. parse_number (on_number (d ∷ ds) o)) unit
    ∙ ap (λ t. scaled (unit_bytes u) (parse_int t)) (append-nil (d ∷ ds))
    ∙ ap (scaled (unit_bytes u)) (parse_int-digits d ds digits fits)
    ∙ scaled_lem (unit_bytes u) (value (d ∷ ds)) p bound
