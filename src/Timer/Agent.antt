-- ===== src/Timer/Agent.antt =====
-- core/agentmgr/timer_agent.go: a timer agent, and the loop that fires it.
--
-- A loop is known by a number, its context, which is cancelled or live. What a fire runs is a
-- command; how it ends makes no difference to the loop. The mutex makes each operation one step.
use gapi.Prelude.{
  ℕ, suc, ◌-◌, ◌^◌, String, Bool, true, not, List, [], ◌∷◌, ◌++◌, Option, none, some, ◌==◌, filter,
  if◌then◌else◌, same,
}
use gapi.Prelude.Int.{ℤ, pos, leb_int, ◌-ℤ◌}
use gapi.Timer.Schedule.{Schedule, Library, Parsed, parsed, refused, parse_schedule, next}

-- How a round of the loop ends: the wait is over, or the context is cancelled first.
pub data Wake : Type 0 where
  elapsed cancelled : Wake

pub data LoopEvent : Type 0 where
  sleeps : ℤ → LoopEvent
  fires exhausted ends : LoopEvent

abbrev pub max_duration : ℤ
max_duration = pos (2 ^ 63 - 1)

-- `max(next.Sub(now), 0)`: the difference keeps to the range of an `int64`.
unfoldable pub wait_for : ℤ → ℤ → ℤ
wait_for at now =
    let d = at -ℤ now in
    if leb_int d (pos 0) then pos 0 else if leb_int max_duration d then max_duration else d

-- The select of a round; `rest` is what the later rounds do.
abbrev pub on_wake : ℤ → Wake → List LoopEvent → List LoopEvent
on_wake d cancelled rest = sleeps d ∷ ends ∷ []
on_wake d elapsed rest = sleeps d ∷ fires ∷ rest

abbrev pub on_next : ℤ → Wake → Option ℤ → List LoopEvent → List LoopEvent
on_next now wake none rest = exhausted ∷ []
on_next now wake (some at) rest = on_wake (wait_for at now) wake rest

-- `run`, by the time at the head of each round and how the round ends.
unfoldable pub run :
    {Cron : Type 0} → Library Cron → List (ℤ × Wake) → Schedule Cron → List LoopEvent
unfolding wait_for next
run lib [] schedule = []
run lib ((now, wake) ∷ rounds) schedule =
    on_next now wake (next lib schedule now).0 (run lib rounds (next lib schedule now).1)

-- A status that was published, with its run.
pub record Status : Type 0 where
  pub state : String
  pub run_id : String

-- `cancel` is the context of the loop that was started last, unless it was cancelled here; `live`
-- are the contexts that nobody has cancelled, and `contexts` how many there have been.
pub record TimerAgent : Type 0 where
  pub enabled : Bool
  pub schedule : String
  pub lang : String
  pub path : String
  pub next_run_id : String
  pub cancel : Option ℕ
  pub contexts : ℕ
  pub live : List ℕ
  pub published : List Status

pub data StartError : Type 0 where
  already_running invalid_schedule : StartError

unfoldable pub new_timer_agent : String → String → String → TimerAgent
new_timer_agent path schedule lang = record {
  enabled = true;
  schedule = schedule;
  lang = lang;
  path = path;
  next_run_id = "";
  cancel = none;
  contexts = 0;
  live = [];
  published = [];
}

unfoldable pub set_run_id : String → TimerAgent → TimerAgent
set_run_id id ta = record ta { next_run_id = id }

unfoldable pub set_enabled : Bool → TimerAgent → TimerAgent
set_enabled v ta = record ta { enabled = v }

-- `publishStatusWithRunID`
unfoldable pub publish_status : String → TimerAgent → TimerAgent
publish_status state ta = record ta {
  published = ta.published ++ record { state = state; run_id = ta.next_run_id } ∷ [];
}

-- `ta.cancel()` and `ta.cancel = nil`
unfoldable pub cancel_loop : ℕ → TimerAgent → TimerAgent
cancel_loop n ta = record ta { cancel = none; live = filter (λ m. not (m == n)) ta.live }

module _ {Cron : Type 0} (lib : Library Cron) where
  abbrev pub start_parsed : Parsed Cron → TimerAgent → TimerAgent × Option StartError
  start_parsed (refused e) ta = (ta, some invalid_schedule)
  start_parsed (parsed s) ta =
      let n = ta.contexts in
      (
        publish_status "RUNNING"
            (record ta { cancel = some n; contexts = suc n; live = n ∷ ta.live }),
        none,
      )

  abbrev pub start_idle : Option ℕ → ℤ → Option ℕ → TimerAgent → TimerAgent × Option StartError
  start_idle (some n) now uptime ta = (ta, some already_running)
  start_idle none now uptime ta = start_parsed (parse_schedule lib ta.schedule now uptime) ta

  -- `Start`, at a time, and some seconds after the boot.
  unfoldable pub start : ℤ → Option ℕ → TimerAgent → TimerAgent × Option StartError
  unfolding publish_status
  start now uptime ta = start_idle ta.cancel now uptime ta

abbrev pub stop_loop : Option ℕ → TimerAgent → TimerAgent
stop_loop none ta = ta
stop_loop (some n) ta = publish_status "STOPPED" (cancel_loop n ta)

-- `Stop`, which never fails.
unfoldable pub stop : TimerAgent → TimerAgent
unfolding publish_status cancel_loop
stop ta = stop_loop ta.cancel ta

abbrev pub reset_loop : Option ℕ → TimerAgent → TimerAgent
reset_loop none ta = ta
reset_loop (some n) ta = cancel_loop n ta

-- `Reset`
unfoldable pub reset : TimerAgent → TimerAgent
unfolding cancel_loop
reset ta = reset_loop ta.cancel ta

-- `Reload`, and `Restart`, which is the same.
unfoldable pub reload :
    {Cron : Type 0} → Library Cron → ℤ → Option ℕ → TimerAgent → TimerAgent × Option StartError
unfolding start stop
reload lib now uptime ta = start lib now uptime (stop ta)

-- `fireCommand`: the program and its arguments; `on_path` tells which programs are found.
unfoldable pub fire_command : (String → Bool) → String → String → TimerAgent → List String
fire_command on_path py_runner id ta =
    if not (same ta.lang "python")
    then ta.path ∷ []
    else ((if not (on_path "python")
          then (if on_path "python3" then "python3" else "python")
          else "python")
        ∷ py_runner
        ∷ "--module"
        ∷ ta.path
        ∷ "--id"
        ∷ id
        ∷ "--type"
        ∷ "timer"
        ∷ "--start"
        ∷ [])
