-- ===== src/Budget/Samples.antt =====
-- Declared and derived budgets, and what the theorems say of them.
use gapi.Prelude.{◌*◌, ◌≡◌, refl, some}
use gapi.Prelude.Int.{pos}
use gapi.Prelude.Text.{lower_is, trim_space, trim_left, trim_right, is_blank}
use gapi.Budget.{
  second, default_readiness_budget, check_declared, resolve_readiness_budget, derive, measured_p95,
  first_frame_p95, or_slowest, above_ceiling,
}
use gapi.Budget.Bounds.{IsHonoured, resolve_readiness_budget-IsHonoured}

budget-python : default_readiness_budget " Python" ≡ 37237000000
unfolding default_readiness_budget derive measured_p95 or_slowest first_frame_p95 lower_is
    trim_space trim_left trim_right is_blank
budget-python = refl

day-above_ceiling : check_declared (pos (86400 * second)) ≡ some above_ceiling
unfolding check_declared
day-above_ceiling = refl

resolve_readiness_budget-IsHonoured_example :
    IsHonoured (resolve_readiness_budget (λ _. some (pos (86400 * second))) (some "24h") "go").0
resolve_readiness_budget-IsHonoured_example =
    resolve_readiness_budget-IsHonoured (λ _. some (pos (86400 * second))) (some "24h") "go"
