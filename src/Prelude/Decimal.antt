-- ===== src/Prelude/Decimal.antt =====
-- `strconv.ParseInt`, `ParseUint` and `Atoi` in base 10, on the numbers of a text's characters.
use gapi.Prelude.Tests.{ltb, leb, ◌==◌, if◌then◌else◌}
use gapi.Prelude.Int.{ℤ, pos, negsuc}
use Prim.Native.Nat.{ℕ, zero, suc, ◌+◌, ◌*◌, ◌-◌, ◌^◌}
use mathlib.Core.Bool.{Bool, true, ◌&&◌}
use mathlib.Core.Option.{Option, none, some}
use mathlib.Core.List.{List, ◌∷◌, []}

abbrev pub is_digit : ℕ → Bool
is_digit n = leb 48 n && leb n 57

-- Digits only, at least one.
unfoldable pub all_digits : List ℕ → Bool
all_digits [] = true
all_digits (d ∷ ds) = is_digit d && all_digits ds

unfoldable pub value_from : ℕ → List ℕ → ℕ
value_from n [] = n
value_from n (d ∷ ds) = value_from (10 * n + (d - 48)) ds

unfoldable pub value : List ℕ → ℕ
unfolding value_from
value ds = value_from 0 ds

-- The number that the digits spell; none for a text without digits or with anything else.
unfoldable pub parse_digits : List ℕ → Option ℕ
unfolding all_digits value
parse_digits [] = none
parse_digits (d ∷ ds) = if all_digits (d ∷ ds) then some (value (d ∷ ds)) else none

-- In the range of `w` bits without a sign.
unfoldable pub in_range : ℕ → Option ℕ → Option ℕ
in_range w none = none
in_range w (some n) = if ltb n (2 ^ w) then some n else none

unfoldable pub parse_uint : ℕ → List ℕ → Option ℕ
unfolding parse_digits in_range
parse_uint w ds = in_range w (parse_digits ds)

abbrev pub negate : ℕ → ℤ
negate zero = pos 0
negate (suc n) = negsuc n

-- In the range of `int64`, with the sign.
unfoldable pub positive : Option ℕ → Option ℤ
positive none = none
positive (some n) = if ltb n (2 ^ 63) then some (pos n) else none

unfoldable pub negative : Option ℕ → Option ℤ
negative none = none
negative (some n) = if leb n (2 ^ 63) then some (negate n) else none

unfoldable pub parse_int : List ℕ → Option ℤ
unfolding parse_digits positive negative
parse_int [] = none
parse_int (c ∷ ds) =
    if c == 43
    then positive (parse_digits ds)
    else if c == 45
    then negative (parse_digits ds)
    else positive (parse_digits (c ∷ ds))
