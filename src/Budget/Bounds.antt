-- ===== src/Budget/Bounds.antt =====
-- The order of the deadlines: silence before readiness, readiness up to the ceiling.
use gapi.Prelude.{◌≤◌, ◌<◌, ◌≡◌, ◌↔◌, ◌⊎◌, inl, inr, refl, ap, String, Option, none, some, arith}
use gapi.Prelude.Int.{ℤ, pos, ◌≤ℤ◌, ◌<ℤ◌}
use gapi.Prelude.Text.{trim_space}
use gapi.Budget.{
  go_p95, python_p95, floor_silence, floor_readiness, ceiling, first_frame_p95, slowest_from,
  or_slowest, measured_p95, derive, silence_budget, default_readiness_budget, resolve, BudgetError,
  check_declared, parsed, checked, parse_readiness_budget, check_parsed, resolve_parsed,
  resolve_readiness_budget,
}

-- A measured language, or the slowest one.
measured_cases : (lang : String) → (measured_p95 lang ≡ go_p95) ⊎ (measured_p95 lang ≡ python_p95)
unfolding measured_p95 first_frame_p95 or_slowest slowest_from
measured_cases lang = ground arith

-- For every language the silence budget is at least 250 ms and less than the default readiness
-- budget, which is at least the 10 s that it replaces and below the ceiling.
pub silence_budget-lt :
    (lang : String)
    → (floor_silence ≤ silence_budget lang)
      × (silence_budget lang < default_readiness_budget lang)
      × (floor_readiness ≤ default_readiness_budget lang)
      × (default_readiness_budget lang ≤ ceiling)
unfolding silence_budget default_readiness_budget derive
silence_budget-lt lang = elim (measured_cases lang) [
  | inl is_go ↦ rw is_go (omega arith, omega arith, omega arith, omega arith)
  | inr is_python ↦ rw is_python (omega arith, omega arith, omega arith, omega arith)
]

unmeasured :
    (lang : String) → first_frame_p95 (trim_space lang) ≡ none → measured_p95 lang ≡ python_p95
unfolding measured_p95 or_slowest slowest_from
unmeasured lang h = ap or_slowest h

-- A language that was never measured has the longest budgets: no language's are longer.
pub default_readiness_budget-unmeasured :
    (lang other : String)
    → first_frame_p95 (trim_space lang) ≡ none
    → (default_readiness_budget other ≤ default_readiness_budget lang)
      × (silence_budget other ≤ silence_budget lang)
unfolding silence_budget default_readiness_budget derive
default_readiness_budget-unmeasured lang other h = elim (measured_cases other) [
  | inl is_go ↦ rw (unmeasured lang h, is_go) (omega arith, omega arith)
  | inr is_python ↦ rw (unmeasured lang h, is_python) (omega arith, omega arith)
]

-- A declaration is refused exactly if it is not positive or is above the ceiling.
pub check_declared-none_iff :
    (d : ℤ) → (check_declared d ≡ none) ↔ ((pos 0 <ℤ d) × (d ≤ℤ pos ceiling))
unfolding check_declared
check_declared-none_iff d = (λ h. (ground arith, ground arith), λ h. ground arith)

-- An effective budget: positive, and at most the ceiling.
abbrev pub IsHonoured : ℤ → Type 0
IsHonoured d = (pos 0 <ℤ d) × (d ≤ℤ pos ceiling)

default-IsHonoured : (lang : String) → IsHonoured (pos (default_readiness_budget lang))
default-IsHonoured lang = let bounds = silence_budget-lt lang in (omega arith, omega arith)

checked-IsHonoured :
    (lang : String) (d : ℤ) (o : Option BudgetError)
    → check_declared d ≡ o
    → IsHonoured (resolve_parsed lang (checked o d)).0
unfolding resolve_parsed checked resolve
checked-IsHonoured lang d none e = (check_declared-none_iff d).0 e
checked-IsHonoured lang d (some err) e = default-IsHonoured lang

-- Whatever a descriptor declares and whatever `time.ParseDuration` answers, the budget that comes
-- out for the controller is positive and at most the ceiling.
pub resolve_readiness_budget-IsHonoured :
    (parse_duration : String → Option ℤ) (declared : Option String) (lang : String)
    → IsHonoured (resolve_readiness_budget parse_duration declared lang).0
unfolding resolve_readiness_budget parse_readiness_budget resolve_parsed check_parsed resolve
resolve_readiness_budget-IsHonoured parse_duration none lang = by_default
  where
    by_default : IsHonoured (resolve_parsed lang (parsed none)).0
    by_default = default-IsHonoured lang
resolve_readiness_budget-IsHonoured parse_duration (some text) lang = by (parse_duration text)
  where
    by : (o : Option ℤ) → IsHonoured (resolve_parsed lang (check_parsed o)).0
    by none = default-IsHonoured lang
    by (some d) = checked-IsHonoured lang d (check_declared d) refl
