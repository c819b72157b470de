-- ===== src/Limits.antt =====
-- core/cgroups/parse.go: what a limit string of an agent means.
--
-- A limit string is trimmed first; after that it is the list of its characters' numbers. Of the
-- letters that `strings.ToUpper` changes, none outside ASCII becomes a letter of a unit or a digit.
-- Go's `float64` is a parameter.
pub mod Bounds
pub mod Units
mod Samples
use gapi.Prelude.{
  ℕ, ◌+◌, ◌-◌, ◌*◌, ◌/◌, ◌^◌, String, Bool, true, false, ◌&&◌, List, [], ◌∷◌, Option, none, some,
  ltb, leb, ◌==◌, same, map, if◌then◌else◌,
}
use gapi.Prelude.Int.{ℤ, pos, negsuc}
use gapi.Prelude.Text.{trim_space, codes}
use gapi.Prelude.Decimal.{parse_int}

-- What the parser uses of `float64`: `ParseFloat`, `float64(n) / 1000.0`, and the comparisons.
pub record Floats : Type 1 where
  pub float : Type 0
  pub zero_float : float
  pub parse_float : List ℕ → Option float
  pub from_millis : ℤ → float
  pub is_nan : float → Bool
  pub is_inf : float → Bool
  pub is_not_positive : float → Bool
  pub is_above_quota : float → Bool

-- The reasons of a `LimitError`, in the order of the source.
pub data LimitError : Type 0 where
  bad_millicpu not_a_number not_finite cpu_not_positive cpu_out_of_range : LimitError
  no_unit not_whole memory_not_positive memory_out_of_range : LimitError

pub data Limit {ℓ} (A : Type ℓ) : Type ℓ where
  limit : A → Limit A
  bad : LimitError → Limit A

abbrev pub max_int64 : ℕ
max_int64 = 2 ^ 63 - 1

-- `memUnits`: the suffixes and their factors, longest first.
abbrev pub mem_units : List (List ℕ × ℕ)
mem_units =
    (71 ∷ 66 ∷ [], 2 ^ 30)
    ∷ (77 ∷ 66 ∷ [], 2 ^ 20)
    ∷ (75 ∷ 66 ∷ [], 2 ^ 10)
    ∷ (66 ∷ [], 1)
    ∷ (71 ∷ [], 2 ^ 30)
    ∷ (77 ∷ [], 2 ^ 20)
    ∷ (75 ∷ [], 2 ^ 10)
    ∷ []

unfoldable pub same_codes : List ℕ → List ℕ → Bool
same_codes [] [] = true
same_codes [] (d ∷ ds) = false
same_codes (c ∷ cs) [] = false
same_codes (c ∷ cs) (d ∷ ds) = c == d && same_codes cs ds

abbrev pub behind : ℕ → Option (List ℕ) → Option (List ℕ)
behind c none = none
behind c (some rest) = some (c ∷ rest)

-- `strings.CutSuffix`: what stands before the suffix, if the text ends in it.
unfoldable pub cut_suffix : List ℕ → List ℕ → Option (List ℕ)
unfolding same_codes
cut_suffix suffix [] = if same_codes [] suffix then some [] else none
cut_suffix suffix (c ∷ cs) =
    if same_codes (c ∷ cs) suffix then some [] else behind c (cut_suffix suffix cs)

-- `strings.ToUpper`.
unfoldable pub to_upper : List ℕ → List ℕ
to_upper [] = []
to_upper (c ∷ cs) = (if leb 97 c && leb c 122 then c - 32 else c) ∷ to_upper cs

-- The first unit that the text ends in, with what stands before it; a helper for each arm.
unfoldable pub or_next : Option (List ℕ) → ℕ → Option (List ℕ × ℕ) → Option (List ℕ × ℕ)
or_next (some num) mult rest = some (num, mult)
or_next none mult rest = rest

unfoldable pub find_unit : List (List ℕ × ℕ) → List ℕ → Option (List ℕ × ℕ)
unfolding cut_suffix or_next
find_unit [] upper = none
find_unit ((suffix, mult) ∷ units) upper =
    or_next (cut_suffix suffix upper) mult (find_unit units upper)

-- The count of bytes, from what `ParseInt` answers.
unfoldable pub scaled : ℕ → Option ℤ → Limit ℕ
scaled mult none = bad not_whole
scaled mult (some (negsuc n)) = bad memory_not_positive
scaled mult (some (pos v)) =
    if leb v 0
    then bad memory_not_positive
    else if ltb (max_int64 / mult) v
    then bad memory_out_of_range
    else limit (v * mult)

unfoldable pub parse_number : Option (List ℕ × ℕ) → Limit ℕ
unfolding scaled parse_int
parse_number none = bad no_unit
parse_number (some (num, mult)) = scaled mult (parse_int num)

unfoldable pub parse_memory : List ℕ → Limit ℕ
unfolding find_unit to_upper parse_number
parse_memory text = parse_number (find_unit mem_units (to_upper text))

unfoldable pub memory_field : String → Limit ℕ
unfolding parse_memory
memory_field m = if same m "" then limit 0 else parse_memory (codes m)

module _ (fl : Floats) where
  unfoldable pub check_cpu : fl.float → Limit fl.float
  check_cpu v =
      if fl.is_nan v
      then bad not_finite
      else if fl.is_inf v
      then bad not_finite
      else if fl.is_not_positive v
      then bad cpu_not_positive
      else if fl.is_above_quota v
      then bad cpu_out_of_range
      else limit v

  unfoldable pub from_whole : Option ℤ → Limit fl.float
  unfolding check_cpu
  from_whole none = bad bad_millicpu
  from_whole (some n) = check_cpu (fl.from_millis n)

  unfoldable pub from_float : Option fl.float → Limit fl.float
  unfolding check_cpu
  from_float none = bad not_a_number
  from_float (some v) = check_cpu v

  -- The suffix is a small `m`.
  unfoldable pub parse_cpu : List ℕ → Limit fl.float
  unfolding from_whole from_float cut_suffix
  parse_cpu text = elim (cut_suffix (109 ∷ []) text) [
    | some millis ↦ from_whole (parse_int millis)
    | none ↦ from_float (fl.parse_float text)
  ]

  -- Both fields, or the first error; a blank string is no limit, and leaves the field zero.
  unfoldable pub cpu_field : String → Limit fl.float
  unfolding parse_cpu
  cpu_field c = if same c "" then limit fl.zero_float else parse_cpu (codes c)

  unfoldable pub both : Limit fl.float → Limit ℕ → Limit (fl.float × ℕ)
  both (bad err) memory = bad err
  both (limit c) (bad err) = bad err
  both (limit c) (limit n) = limit (c, n)

  unfoldable pub parse_resource_spec : String → String → Limit (fl.float × ℕ)
  unfolding both cpu_field memory_field
  parse_resource_spec cpu mem = both (cpu_field (trim_space cpu)) (memory_field (trim_space mem))
