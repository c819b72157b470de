-- ===== src/Limits/Samples.antt =====
-- Limit strings, and what the theorems say of them.
use gapi.Prelude.{ℕ, ◌*◌, ◌≡◌, refl, false, [], ◌∷◌, ◌++◌, some, ◌==◌, same, arith}
use gapi.Prelude.Text.{trim_space, trim_left, trim_right, is_blank, codes}
use gapi.Prelude.Decimal.{parse_int, parse_digits, all_digits, value, value_from, positive}
use gapi.Limits.{
  Floats, limit, bad, no_unit, memory_out_of_range, parse_memory, parse_resource_spec, cut_suffix,
  same_codes, or_next, find_unit, to_upper, parse_number, scaled, both, cpu_field, memory_field,
}
use gapi.Limits.Bounds.{IsByteCount, parse_memory-IsByteCount}
use gapi.Limits.Units.{parse_memory-append, kilobytes, is_spelled}

reading : Unit {0}
unfolding codes parse_memory find_unit cut_suffix same_codes or_next to_upper parse_number scaled
    parse_int parse_digits all_digits value value_from positive
reading = tt

-- `64kb`, and a bare number.
memory-small : parse_memory (54 ∷ 52 ∷ 107 ∷ 98 ∷ []) ≡ limit 65536
unfolding reading
memory-small = refl

memory-bare : parse_memory (codes "1024") ≡ bad no_unit
unfolding reading
memory-bare = refl

memory-huge : parse_memory (codes "9000000000GB") ≡ bad memory_out_of_range
unfolding reading
memory-huge = refl

parse_memory-append_example : parse_memory ((54 ∷ 52 ∷ []) ++ 107 ∷ 98 ∷ []) ≡ limit (64 * 1024)
unfolding reading is_spelled
parse_memory-append_example =
    parse_memory-append 54 (52 ∷ []) kilobytes (107 ∷ 98 ∷ []) refl refl (omega arith) (omega arith)

parse_memory-IsByteCount_example : IsByteCount (parse_memory (codes "64kb"))
parse_memory-IsByteCount_example = parse_memory-IsByteCount (codes "64kb")

-- Floats that read everything as one.
abbrev toy_floats : Floats
toy_floats = record {
  float = ℕ;
  zero_float = 0;
  parse_float = λ _. some 1;
  from_millis = λ _. 1;
  is_nan = λ _. false;
  is_inf = λ _. false;
  is_not_positive = λ v. v == 0;
  is_above_quota = λ _. false;
}

spec-small : parse_resource_spec toy_floats "" "64KB " ≡ limit (0, 65536)
unfolding reading parse_resource_spec both cpu_field memory_field trim_space trim_left trim_right
    is_blank same
spec-small = refl
