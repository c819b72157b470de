-- ===== src/Limits/Bounds.antt =====
-- A memory limit that is accepted is positive and fits an `int64`; no limit is dropped silently.
use mathlib.Core.Path.{subst}
use gapi.Prelude.{
  ap, sym, ◌∙◌, ℕ, ◌*◌, ◌/◌, ◌≤◌, ◌<◌, ◌≡◌, ◌⊎◌, inl, inr, refl, String, Bool, true, false, ◌&&◌,
  ◌||◌, List, [], ◌∷◌, Option, none, some, ltb, leb, ◌==◌, ==_iff, same, arith, if◌then◌else◌,
  Bool-cases,
}
use gapi.Prelude.Int.{ℤ, pos, negsuc}
use gapi.Prelude.Text.{trim_space, codes}
use gapi.Prelude.Decimal.{parse_int}
use gapi.Limits.{
  Floats, Limit, limit, bad, max_int64, mem_units, cut_suffix, or_next, find_unit, scaled,
  parse_number, parse_memory, to_upper, memory_field, cpu_field, both, parse_resource_spec,
}

abbrev pub is_factor : ℕ → Bool
is_factor m = m == 1 || m == 1024 || m == 1048576 || m == 1073741824

unfoldable pub all_factors : List (List ℕ × ℕ) → Bool
all_factors [] = true
all_factors ((suffix, mult) ∷ units) = is_factor mult && all_factors units

or_next-cases :
    (o : Option (List ℕ)) (mult : ℕ) (rest : Option (List ℕ × ℕ)) (num : List ℕ) (m : ℕ)
    → or_next o mult rest ≡ some (num, m)
    → (mult ≡ m) ⊎ (rest ≡ some (num, m))
unfolding or_next
or_next-cases none mult rest num m h = inr h
or_next-cases (some n) mult rest num m h = inl (ap (λ o. elim o [ none ↦ 0 | some r ↦ r.1 ]) h)

pub find_unit-factor :
    (units : List (List ℕ × ℕ)) (upper num : List ℕ) (m : ℕ)
    → all_factors units ≡ true
    → find_unit units upper ≡ some (num, m)
    → is_factor m ≡ true
unfolding find_unit all_factors
find_unit-factor [] upper num m ok h = cc
find_unit-factor ((suffix, mult) ∷ units) upper num m ok h =
    elim (or_next-cases (cut_suffix suffix upper) mult (find_unit units upper) num m h) [
      | inl here ↦ ground (arith, here)
      | inr later ↦ find_unit-factor units upper num m (ground arith) later
    ]

-- A positive number that fits an `int64`.
abbrev pub IsByteCount : Limit ℕ → Type 0
IsByteCount (bad err) = Unit
IsByteCount (limit n) = (0 < n) × (n ≤ max_int64)

pub factor_cases :
    (m : ℕ) → is_factor m ≡ true → (m ≡ 1) ⊎ ((m ≡ 1024) ⊎ ((m ≡ 1048576) ⊎ (m ≡ 1073741824)))
factor_cases m h = ground arith

times_factor :
    (v m : ℕ) → is_factor m ≡ true → 0 < v → v ≤ max_int64 / m → (0 < v * m) × (v * m ≤ max_int64)
times_factor v m ok p h = elim (factor_cases m ok) [
  | inl e ↦ at 1 e (λ q. (omega arith, omega arith))
  | inr (inl e) ↦ at 1024 e (λ q. (omega arith, omega arith))
  | inr (inr (inl e)) ↦ at 1048576 e (λ q. (omega arith, omega arith))
  | inr (inr (inr e)) ↦ at 1073741824 e (λ q. (omega arith, omega arith))
]
  where
    at :
        (k : ℕ)
        → m ≡ k
        → (v ≤ max_int64 / k → (0 < v * k) × (v * k ≤ max_int64))
        → (0 < v * m) × (v * m ≤ max_int64)
    at k e proof =
        subst (λ j. (0 < v * j) × (v * j ≤ max_int64)) (sym e)
          (proof (subst (λ j. v ≤ max_int64 / j) e h))

-- Of a product that fits, the number is below the bound that the parser tests.
pub below_bound :
    (v m : ℕ) → is_factor m ≡ true → v * m ≤ max_int64 → (v ≤ max_int64 / m) × (v ≤ max_int64)
below_bound v m ok h = elim (factor_cases m ok) [
  | inl e ↦ at 1 e (λ q. (omega arith, omega arith))
  | inr (inl e) ↦ at 1024 e (λ q. (omega arith, omega arith))
  | inr (inr (inl e)) ↦ at 1048576 e (λ q. (omega arith, omega arith))
  | inr (inr (inr e)) ↦ at 1073741824 e (λ q. (omega arith, omega arith))
]
  where
    at :
        (k : ℕ)
        → m ≡ k
        → (v * k ≤ max_int64 → (v ≤ max_int64 / k) × (v ≤ max_int64))
        → (v ≤ max_int64 / m) × (v ≤ max_int64)
    at k e proof =
        subst (λ j. (v ≤ max_int64 / j) × (v ≤ max_int64)) (sym e)
          (proof (subst (λ j. v * j ≤ max_int64) e h))

scaled-IsByteCount : (m : ℕ) (o : Option ℤ) → is_factor m ≡ true → IsByteCount (scaled m o)
unfolding scaled
scaled-IsByteCount m none ok = tt
scaled-IsByteCount m (some (negsuc n)) ok = tt
scaled-IsByteCount m (some (pos v)) ok = elim (Bool-cases (leb v 0)) [
  | inl none_asked ↦ rw none_asked tt
  | inr asked ↦ elim (Bool-cases (ltb (max_int64 / m) v)) [
    | inl too_many ↦ rw (asked, too_many) tt
    | inr fits ↦
        rw (asked, fits) (times_factor v m ok (ground (arith, asked)) (ground (arith, fits)))
  ]
]

-- A memory limit, once accepted, is a positive number of bytes that fits an `int64`: the product by
-- the unit never wraps around.
pub parse_memory-IsByteCount : (text : List ℕ) → IsByteCount (parse_memory text)
unfolding parse_memory parse_number all_factors
parse_memory-IsByteCount text = by (find_unit mem_units (to_upper text)) refl
  where
    by :
        (o : Option (List ℕ × ℕ))
        → find_unit mem_units (to_upper text) ≡ o
        → IsByteCount (parse_number o)
    by none e = tt
    by (some (num, m)) e =
        scaled-IsByteCount m (parse_int num)
          (find_unit-factor mem_units (to_upper text) num m refl e)

memory_field-cases :
    (m : String) (n : ℕ) → memory_field m ≡ limit n → (same m "" ≡ (n == 0)) × (n ≤ max_int64)
unfolding memory_field
memory_field-cases m n h = by (same m "") refl
  where
    counts : Limit ℕ → ℕ
    counts (limit k) = k
    counts (bad err) = 0

    by : (b : Bool) → same m "" ≡ b → (same m "" ≡ (n == 0)) × (n ≤ max_int64)
    by true blank =
        let zero_kept : 0 ≡ n =
          ap counts
            (subst (λ b. (if b then limit 0 else parse_memory (codes m)) ≡ limit n) blank h) in
        (blank ∙ sym ((==_iff n 0).1 (sym zero_kept)), omega arith)
    by false asked =
        let answered : parse_memory (codes m) ≡ limit n =
          subst (λ b. (if b then limit 0 else parse_memory (codes m)) ≡ limit n) asked h in
        let (positive, fits) : (0 < n) × (n ≤ max_int64) =
          subst IsByteCount answered (parse_memory-IsByteCount (codes m)) in
        (asked ∙ ground arith, fits)

module _ (fl : Floats) where
  both-limit :
      (a : Limit fl.float) (b : Limit ℕ) (c : fl.float) (n : ℕ)
      → both fl a b ≡ limit (c, n)
      → b ≡ limit n
  unfolding both
  both-limit (bad err) b c n h = cc
  both-limit (limit c') (bad err) c n h = cc
  both-limit (limit c') (limit n') c n h = ap second h
    where
      second : Limit (fl.float × ℕ) → Limit ℕ
      second (limit r) = limit r.1
      second (bad err) = bad err

  -- What `ParseResourceSpec` accepts has the memory field zero exactly if the memory string is blank:
  -- a limit that was asked for is positive, fits an `int64`, and is not dropped without an error.
  pub parse_resource_spec-memory :
      (cpu mem : String) (c : fl.float) (n : ℕ)
      → parse_resource_spec fl cpu mem ≡ limit (c, n)
      → (same (trim_space mem) "" ≡ (n == 0)) × (n ≤ max_int64)
  unfolding parse_resource_spec
  parse_resource_spec-memory cpu mem c n h =
      memory_field-cases (trim_space mem) n
        (both-limit (cpu_field fl (trim_space cpu)) (memory_field (trim_space mem)) c n h)
