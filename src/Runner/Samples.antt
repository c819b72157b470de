-- ===== src/Runner/Samples.antt =====
-- A service that is started, says that it runs and exits; and a stream with a frame of another
-- version.
use gapi.Prelude.{
  ℕ, ◌≤◌, ◌≡◌, refl, String, true, false, ◌==◌, List, [], ◌∷◌, ◌++◌, some, filter, count_p, length,
  same,
}
use gapi.Limits.{Floats, parse_resource_spec, both, cpu_field, memory_field}
use gapi.Prelude.Text.{trim_space, trim_left, trim_right, is_blank, codes}
use gapi.Runner.Control.{
  status, heartbeat, Frame, eof, announced, published, is_terminal, judge, read_frames,
  read_control,
}
use gapi.Runner.Heard.{
  heard, spoken, is_spoken, is_seen, is_error, read_control-heard, errors-read_control,
}
use gapi.Runner.Agent.{
  spawned, starting, ended, said, new_go_agent, publish, cleanup_after_exit, ensure_listener,
  set_run_id, note_frame_seen, note_announced_state, announced_own_exit, arm,
}
use gapi.Runner.Calls.{
  Answers, start, holds, spawn, after_spawn, child_exited, stop, stopped, rearm,
}
use gapi.Runner.Steps.{
  Op, starts, child_exits, stops, stop_ends, hears, sets_run_id, Session, do_op, do_ops,
  calls_apart, take_call, to_upper, translate, hear, watchers_act,
}
use gapi.Runner.Once.{reported}
use gapi.Runner.Sound.{new_session, reported-do_ops, holds-child_exits}

-- Floats that read everything as one.
abbrev toy_floats : Floats
toy_floats = record {
  float = ℕ;
  zero_float = 0;
  parse_float = λ _. some 1;
  from_millis = λ _. 1;
  is_nan = λ _. false;
  is_inf = λ _. false;
  is_not_positive = λ v. v == 0;
  is_above_quota = λ _. false;
}

abbrev yes : Answers
yes = record {
  sockets = record { bound = true; file = true };
  pipe = true;
  stdout = true;
  stderr = true;
  exec = true;
}

abbrev says : String → Frame
says state = record { schema_version = 1; event = status state "" "r1" }

-- A version that is not known, then `RUNNING`.
abbrev frames : List Frame
frames = record { schema_version = 2; event = heartbeat "h" } ∷ says "RUNNING" ∷ []

program : Unit {0}
unfolding is_terminal judge read_frames read_control filter count_p same heard spoken do_op do_ops
    start spawn after_spawn publish cleanup_after_exit parse_resource_spec both cpu_field
    memory_field trim_space trim_left trim_right is_blank codes ensure_listener set_run_id hear
    note_frame_seen note_announced_state to_upper translate watchers_act child_exited
    announced_own_exit new_go_agent reported stop stopped rearm arm calls_apart take_call
program = tt

-- The first frame is refused with a line, the second is told on.
spoken_twice :
    filter is_spoken (read_control frames eof)
    ≡ announced "RUNNING" "r1" ∷ published "RUNNING" "" "r1" ∷ []
unfolding program
spoken_twice = refl

read_control-heard_example :
    (filter is_spoken (read_control frames eof) ≡ spoken (heard 32 frames))
    × (count_p is_seen (read_control frames eof) ≡ length (heard 32 frames))
read_control-heard_example = read_control-heard frames eof

errors-read_control_example : count_p is_error (read_control frames eof) ≤ 33
errors-read_control_example = errors-read_control frames eof

-- A start under the run `r1`, a frame, an exit that nobody announced, and a start again.
abbrev ops : List Op
ops =
    sets_run_id "r1"
    ∷ starts yes
    ∷ hears (published "running" "" "r1")
    ∷ child_exits 0
    ∷ starts yes
    ∷ []

abbrev new : Session
new = new_session yes.sockets false "" "" "" true

reports_of_ops :
    (do_ops toy_floats ops new).agent.reports
    ≡ starting 0 "r1" ∷ said "RUNNING" "r1" ∷ ended (spawned 0) "FAILED" "r1" ∷ starting 1 "r1" ∷ []
unfolding program
reports_of_ops = refl

apart : calls_apart toy_floats ops new ≡ true
unfolding program
apart = refl

reported-do_ops_example : reported 0 (do_ops toy_floats ops new).agent.reports ≤ 1
reported-do_ops_example = reported-do_ops toy_floats 0 yes.sockets false "" "" "" true ops apart

-- Two calls of Stop that overlap: each of them reports the end of the one program.
abbrev overlapping : List Op
overlapping =
    sets_run_id "r1"
    ∷ starts yes
    ∷ stops
    ∷ stops
    ∷ child_exits 0
    ∷ stop_ends 0 yes.sockets
    ∷ stop_ends 0 yes.sockets
    ∷ []

reports_of_overlapping :
    (do_ops toy_floats overlapping new).agent.reports
    ≡ starting 0 "r1" ∷ ended (spawned 0) "STOPPED" "r1" ∷ ended (spawned 0) "STOPPED" "r1" ∷ []
unfolding program
reports_of_overlapping = refl

none_under_way : (do_ops toy_floats (overlapping ++ starts yes ∷ []) new).calls ≡ []
unfolding program
none_under_way = refl

holds-child_exits_example :
    holds 1
      (do_op toy_floats
        (child_exits 1)
        (do_ops toy_floats (overlapping ++ starts yes ∷ []) new)).agent.cmd
    ≡ false
holds-child_exits_example =
    holds-child_exits toy_floats 1 yes.sockets false "" "" "" true (overlapping ++ starts yes ∷ [])
      none_under_way

-- Stop reports the end itself, whichever of the two comes first.
stop_of_run :
    (do_ops toy_floats
      (sets_run_id "r1" ∷ starts yes ∷ stops ∷ child_exits 0 ∷ stop_ends 0 yes.sockets ∷ [])
      new).agent.reports
    ≡ starting 0 "r1" ∷ ended (spawned 0) "STOPPED" "r1" ∷ []
unfolding program
stop_of_run = refl

-- An end that is announced in small letters is told on in capitals, and is not known at the exit.
small_letters :
    (do_ops toy_floats
      (sets_run_id "r1"
        ∷ starts yes
        ∷ hears (announced "stopped" "r1")
        ∷ hears (published "stopped" "" "r1")
        ∷ child_exits 0
        ∷ [])
      new).agent.reports
    ≡ starting 0 "r1" ∷ said "STOPPED" "r1" ∷ ended (spawned 0) "FAILED" "r1" ∷ []
unfolding program
small_letters = refl
