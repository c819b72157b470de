-- ===== src/Timer/Samples.antt =====
-- Timers on a library that knows the durations 5s and 0s.
use gapi.Prelude.{ℕ, ◌≡◌, refl, false, List, [], ◌∷◌, Option, none, some, same, if◌then◌else◌}
use gapi.Prelude.Int.{ℤ, pos, ◌+ℤ◌, ◌-ℤ◌}
use gapi.Prelude.Text.{trim_space, trim_left, trim_right, is_blank, trim_prefix}
use gapi.Timer.Schedule.{
  once, Library, parsed, systemd_prefixes, is_systemd_from, is_systemd_schedule, parse_systemd_from,
  parse_systemd_schedule, parse_trimmed, parse_schedule_at, next,
}
use gapi.Timer.Agent.{Wake, elapsed, sleeps, fires, exhausted, wait_for, run, new_timer_agent}
use gapi.Timer.Fires.{count_fires, elapsed_rounds, Behaves, parse_schedule_at-Behaves}
use gapi.Timer.Loops.{Op, starts, reloads, do_ops, as_list, do_ops_new-IsTracked}

abbrev lib : Library ℕ
lib = record {
  parse_duration = λ s.
      if same s "5s" then some (pos 5000000000) else if same s "0s" then some (pos 0) else none;
  parse_cron = λ s. none;
  next_cron = λ c t. none;
}

program : Unit {0}
unfolding same trim_space trim_left trim_right is_blank trim_prefix systemd_prefixes is_systemd_from
    is_systemd_schedule parse_systemd_from parse_systemd_schedule parse_trimmed parse_schedule_at
    next wait_for run count_fires elapsed_rounds ◌+ℤ◌ ◌-ℤ◌
program = tt

boot_once :
    parse_schedule_at lib " OnBootSec=5s" (pos 9000000000) (pos 1)
    ≡ parsed (once (pos 5000000001) false)
unfolding program
boot_once = refl

abbrev rounds : List (ℤ × Wake)
rounds = (pos 9000000000, elapsed) ∷ (pos 9000000007, elapsed) ∷ []

-- The instant is past: the timer fires at once, and never again.
late : run lib rounds (once (pos 5000000001) false) ≡ sleeps (pos 0) ∷ fires ∷ exhausted ∷ []
unfolding program
late = refl

parse_schedule_at-Behaves_example : Behaves lib (once (pos 5000000001) false) rounds
parse_schedule_at-Behaves_example =
    parse_schedule_at-Behaves lib " OnBootSec=5s" (pos 9000000000) (pos 1)
      (once (pos 5000000001) false) rounds boot_once

abbrev ops : List (Op × ℤ × Option ℕ)
ops = (starts, pos 1, none) ∷ (starts, pos 2, none) ∷ (reloads, pos 3, some 1) ∷ []

do_ops_new-IsTracked_example :
    (do_ops lib ops (new_timer_agent "/agents/t" "5s" "go")).live
    ≡ as_list (do_ops lib ops (new_timer_agent "/agents/t" "5s" "go")).cancel
do_ops_new-IsTracked_example = do_ops_new-IsTracked lib ops "/agents/t" "5s" "go"
