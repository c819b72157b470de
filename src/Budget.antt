-- ===== src/Budget.antt =====
-- core/budget/budget.go, core/schema/readiness.go and core/agentmgr/budgets.go: the deadlines of an
-- agent's start, derived from one table, and the budget that a descriptor may declare.
--
-- A `time.Duration` is a number of nanoseconds.
pub mod Bounds
mod Samples
use gapi.Prelude.{
  ℕ, ◌+◌, ◌*◌, String, Bool, true, false, ◌&&◌, List, ◌∷◌ as cons, [] as nil, Option, none, some,
  ltb, leb, ◌==◌, if◌then◌else◌,
}
use gapi.Prelude.Int.{ℤ, pos, leb_int, ltb_int}
use gapi.Prelude.Text.{trim_space, lower_is}

abbrev pub microsecond : ℕ
microsecond = 1000

abbrev pub millisecond : ℕ
millisecond = 1000000

abbrev pub second : ℕ
second = 1000000000

abbrev pub go_p95 : ℕ
go_p95 = 1248 * microsecond

abbrev pub python_p95 : ℕ
python_p95 = 37237 * microsecond

abbrev pub factor_silence : ℕ
factor_silence = 100

abbrev pub factor_readiness : ℕ
factor_readiness = 1000

abbrev pub floor_silence : ℕ
floor_silence = 250 * millisecond

abbrev pub floor_readiness : ℕ
floor_readiness = 10 * second

abbrev pub ceiling : ℕ
ceiling = 60 * second

-- `firstFrameP95`, looked up, and its values.
unfoldable pub first_frame_p95 : String → Option ℕ
first_frame_p95 lang =
    if lower_is lang "go"
    then some go_p95
    else if lower_is lang "python"
    then some python_p95
    else none

abbrev pub p95_values : List ℕ
p95_values = cons go_p95 (cons python_p95 nil)

unfoldable pub slowest_from : ℕ → List ℕ → ℕ
slowest_from slowest nil = slowest
slowest_from slowest (cons p95 rest) = slowest_from (if ltb slowest p95 then p95 else slowest) rest

unfoldable pub or_slowest : Option ℕ → ℕ
unfolding slowest_from
or_slowest (some p95) = p95
or_slowest none = slowest_from 0 p95_values

-- `measuredP95`: the slowest for a language that the table does not have.
unfoldable pub measured_p95 : String → ℕ
unfolding first_frame_p95 or_slowest
measured_p95 lang = or_slowest (first_frame_p95 (trim_space lang))

unfoldable pub derive : String → ℕ → ℕ → ℕ
unfolding measured_p95
derive lang factor floor = let d = measured_p95 lang * factor in if ltb d floor then floor else d

unfoldable pub silence_budget : String → ℕ
unfolding derive
silence_budget lang = derive lang factor_silence floor_silence

unfoldable pub default_readiness_budget : String → ℕ
unfolding derive
default_readiness_budget lang = derive lang factor_readiness floor_readiness

-- `Resolve`; no declaration is `none`.
unfoldable pub resolve : String → Option ℤ → ℤ
unfolding default_readiness_budget
resolve lang (some declared) = declared
resolve lang none = pos (default_readiness_budget lang)

pub data BudgetError : Type 0 where
  not_positive above_ceiling malformed : BudgetError

unfoldable pub check_declared : ℤ → Option BudgetError
check_declared declared =
    if leb_int declared (pos 0)
    then some not_positive
    else if ltb_int (pos ceiling) declared
    then some above_ceiling
    else none

-- An answer of `ParseReadinessBudget`: an error, or the budget, if one is declared.
pub data Parsed : Type 0 where
  refused : BudgetError → Parsed
  parsed : Option ℤ → Parsed

unfoldable pub checked : Option BudgetError → ℤ → Parsed
checked (some err) d = refused err
checked none d = parsed (some d)

-- The budgets of a controller.
pub record Budgets : Type 0 where
  pub readiness : ℤ
  pub silence : ℤ

-- `applyLanguageBudgets`, and `SetReadinessBudget` of both runners.
unfoldable pub apply_language_budgets : Budgets → String → Budgets
unfolding default_readiness_budget silence_budget
apply_language_budgets b lang = record {
  readiness = pos (default_readiness_budget lang);
  silence = pos (silence_budget lang);
}

unfoldable pub set_readiness_budget : Budgets → ℤ → Budgets
set_readiness_budget b d = record b { readiness = d }

-- What `ParseReadinessBudget` makes of the duration that it read.
unfoldable pub check_parsed : Option ℤ → Parsed
unfolding checked check_declared
check_parsed none = refused malformed
check_parsed (some d) = checked (check_declared d) d

-- What `resolveReadinessBudget` makes of that: the default where the declaration is refused.
unfoldable pub resolve_parsed : String → Parsed → ℤ × Option BudgetError
unfolding default_readiness_budget resolve
resolve_parsed lang (refused err) = (pos (default_readiness_budget lang), some err)
resolve_parsed lang (parsed d) = (resolve lang d, none)

-- `time.ParseDuration` is a parameter.
module _ (parse_duration : String → Option ℤ) where
  unfoldable pub parse_readiness_budget : Option String → Parsed
  unfolding check_parsed
  parse_readiness_budget none = parsed none
  parse_readiness_budget (some text) = check_parsed (parse_duration text)

  unfoldable pub resolve_readiness_budget : Option String → String → ℤ × Option BudgetError
  unfolding parse_readiness_budget resolve_parsed
  resolve_readiness_budget declared lang = resolve_parsed lang (parse_readiness_budget declared)
