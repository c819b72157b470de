-- ===== src/Lifecycle/Samples.antt =====
-- Small runs of the lifecycle, and the theorems at them.
use gapi.Prelude.{◌≡◌, refl, ◌↔◌, String, Bool, true, false, List, [], ◌∷◌, some, elem, same}
use gapi.StateMachine.{is_allowed}
use gapi.Lifecycle.States.{
  LifecycleState, starting, running, stopping, stopped, error, lifecycle_table,
}
use gapi.Lifecycle.States.Reachable.{after, IsReachable, after_iff}
use gapi.Lifecycle.Wait.{
  StatusEvt, Report, Wake, status, silence_expired, await_running, StartTimeout, start_timeout,
  feed_all, feed, is_running, await_loop, unread,
}
use gapi.Lifecycle.Controller.{
  World, classified, Controller, ok, err, cycle_detected, restart_stop, start_timed_out, control,
  ensure, runner_set_run_id, start, stop, restart, moved, failed, runner_start, runner_stop,
  runner_reset, status_stopped, apply, dependency_classes, apply_start, claim_start, start_marked,
  ensure_hard, ensure_soft, await_start, transition, try_transition, begin_start, end_start, enter,
  finish_start,
}
use gapi.Lifecycle.Controller.Outcomes.{
  IsSpawned, can_start, IsRunningHeard, EndsAs, apply-start_runs_iff, apply-start-EndsAs,
}
use gapi.Lifecycle.Controller.Stops.{apply-stop_lem}
use gapi.Lifecycle.Controller.Nested.{apply-restart}

abbrev web : Controller
web = record { id = "web"; state = stopped; starting_now = false; state_ch = []; effects = [] }

abbrev running_of : String → StatusEvt
running_of run = record { state = "running"; time = 7; run_id = run }

abbrev said : String → Wake
said run = status (running_of run)

abbrev spoke : Bool → Report
spoke b = record { has_spoken = some b; first_frame_latency = some 1 }

-- A first, stale status, then the run's own.
abbrev healthy : World
healthy = record {
  deps = classified ("db" ∷ []) ("log" ∷ []);
  ensure_started = λ stack dep. true;
  start_ok = true;
  reload_ok = true;
  sets_run_id = true;
  run_id = "r2";
  cutover = 5;
  readiness_budget = 60;
  silence_budget = 10;
  early = running_of "r1" ∷ [];
  wakes = silence_expired (spoke true) ∷ said "r2" ∷ [];
  report = spoke true;
  reload_statuses = [];
}

abbrev mute : World
mute = record healthy {
  wakes = silence_expired (spoke false) ∷ said "r2" ∷ [];
  report = spoke false;
}

-- The child says that it runs while the runner still starts it, and nothing after that.
abbrev quick : World
quick = record healthy { early = running_of "r2" ∷ []; wakes = [] }

abbrev broken : World
broken = record healthy { ensure_started = λ stack dep. false }

after_iff_example :
    ((requests : List LifecycleState) × (after requests ≡ error)) ↔ IsReachable error
after_iff_example = after_iff error

apply-start_runs_iff_example :
    ((apply quick [] start web).0 ≡ ok tt)
    ↔ (IsSpawned quick [] web × (can_start stopped ≡ true) × IsRunningHeard quick)
unfolding elem
apply-start_runs_iff_example = apply-start_runs_iff quick [] web refl refl refl

quick_runs : (apply quick [] start web).0 ≡ ok tt
unfolding elem dependency_classes same lifecycle_table is_allowed feed_all feed is_running
quick_runs =
    apply-start_runs_iff_example.1 ((refl, refl), refl, ([], [], running_of "r2", refl, refl, refl))

abbrev silence : StartTimeout
silence = record {
  agent_id = "web";
  run_id = "r2";
  waited = 10;
  silent = true;
  silence_known = true;
  first_frame = 1;
}

apply-start-EndsAs_example :
    ((apply mute [] start web).1.starting_now ≡ false)
    × EndsAs mute [] web (apply mute [] start web).0 (apply mute [] start web).1
unfolding elem
apply-start-EndsAs_example = apply-start-EndsAs mute [] web refl refl refl

starting_up : Unit {0}
unfolding elem dependency_classes same lifecycle_table is_allowed feed_all feed is_running apply
    apply_start claim_start start_marked ensure_hard ensure_soft await_start await_running
    await_loop start_timeout transition try_transition unread begin_start end_start enter
    finish_start
starting_up = tt

mute_times_out : apply mute [] start (record web { state_ch = running_of "r2" ∷ [] }) ≡ (
  err (start_timed_out silence),
  record web {
    state = error;
    effects =
        ensure "db"
        ∷ ensure "log"
        ∷ control start
        ∷ runner_set_run_id "r2"
        ∷ runner_start
        ∷ moved stopped starting
        ∷ moved starting error
        ∷ failed silence
        ∷ [];
  },
)
unfolding starting_up
mute_times_out = refl

apply-stop_lem_example : apply healthy [] stop (record web { state = running }) ≡ (
  ok tt,
  record web {
    effects =
        control stop
        ∷ moved running stopping
        ∷ runner_stop
        ∷ runner_reset
        ∷ status_stopped
        ∷ moved stopping stopped
        ∷ [];
  },
)
unfolding elem
apply-stop_lem_example = apply-stop_lem healthy [] (record web { state = running }) refl

apply-restart_example : apply healthy [] restart (record web { state = running }) ≡ (
  err (restart_stop (cycle_detected ("web" ∷ []) "web")),
  record web { state = running; effects = control restart ∷ [] },
)
unfolding elem
apply-restart_example = apply-restart healthy [] (record web { state = running }) refl
