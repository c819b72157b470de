-- ===== src/Runner/Calls.antt =====
-- core/agentmgr/go_agent.go: Start, Stop and Reset, and the watcher of a program's exit.
use gapi.Prelude.{
  ℕ, suc, ◌==◌, String, Bool, true, false, not, ◌&&◌, ◌||◌, ◌∷◌, Option, none, some, if◌then◌else◌,
  same,
}
use gapi.Limits.{Floats, Limit, limit, bad, parse_resource_spec}
use gapi.Runner.Agent.{
  Slot, empty, unstarted, running, spawned, starting, ended, GoAgent, publish, cleanup_after_exit,
  announced_own_exit, Sockets, ensure_listener, arm,
}

-- What a call does once the watcher is joined that it has taken.
pub data Then : Type 0 where
  returns : Then
  -- The pid, the epoch and the run.
  stops_adopted : ℕ → ℕ → String → Then
  adopts : ℕ → Then

-- Where the call stands that has given the lock up: a oneshot's Start waits for its program, Stop for
-- the program that it has signalled, a call joins a watcher, Stop waits for the adopted process.
pub data Call : Type 0 where
  idle : Call
  in_oneshot in_stop : ℕ → String → Call
  joining : Option ℕ → Then → Call
  in_stop_adopted : ℕ → ℕ → String → Call

pub data StartFailure : Type 0 where
  bad_limits no_socket no_pipe no_stdout no_stderr not_spawned : StartFailure

-- The agent, the call that is under way and the error of Start.
abbrev pub Begun : Type 0
Begun = GoAgent × Call × Option StartFailure

-- What the system answers to the steps of Start.
pub record Answers : Type 0 where
  pub sockets : Sockets
  pub pipe : Bool
  pub stdout : Bool
  pub stderr : Bool
  pub exec : Bool

-- From the return of `cmd.Start` on.
unfoldable pub after_spawn : GoAgent → Begun
unfolding publish
after_spawn a =
    let n = a.spawns in
    let rid = a.next_run_id in
    let b = publish (starting n rid) (record a { cmd = running n; spawns = suc n }) in
    if b.oneshot
    then (b, in_oneshot n rid, none)
    else (record b { watchers = (n, rid) ∷ b.watchers }, idle, none)

-- From the making of the control pipe on.
unfoldable pub spawn : Answers → GoAgent → Begun
unfolding after_spawn
spawn env a =
    let b = record a { cmd = unstarted; stopping = false } in
    let c = record b { announced_state = ""; announced_run_id = ""; spoke = false } in
    if not env.pipe
    then (a, idle, some no_pipe)
    else if not env.stdout
    then (b, idle, some no_stdout)
    else if not env.stderr
    then (b, idle, some no_stderr)
    else if not env.exec
    then (c, idle, some not_spawned)
    else after_spawn c

abbrev pub with_socket : Answers → GoAgent × Bool → Begun
with_socket env (a, false) = (a, idle, some no_socket)
with_socket env (a, true) = spawn env a

module _ (fl : Floats) where
  abbrev pub with_limits : Answers → Limit (fl.float × ℕ) → GoAgent → Begun
  with_limits env (bad e) a = (a, idle, some bad_limits)
  with_limits env (limit l) a =
      if not (same a.listen_spec "")
      then with_socket env (ensure_listener env.sockets a)
      else spawn env a

  abbrev pub start_slot : Answers → Slot → GoAgent → Begun
  start_slot env (running n) a = (a, idle, none)
  start_slot env empty a = with_limits env (parse_resource_spec fl a.cpu_limit a.mem_limit) a
  start_slot env unstarted a = with_limits env (parse_resource_spec fl a.cpu_limit a.mem_limit) a

  -- `Start`
  unfoldable pub start : Answers → GoAgent → Begun
  unfolding spawn ensure_listener parse_resource_spec
  start env a = start_slot env a.cmd (record a { armed = false })

-- The end of a oneshot's Start.
unfoldable pub oneshot_ended : Bool → ℕ → String → GoAgent → GoAgent
unfolding publish cleanup_after_exit
oneshot_ended ok n rid a =
    cleanup_after_exit (publish (ended (spawned n) (if ok then "COMPLETED" else "FAILED") rid) a)

abbrev pub holds : ℕ → Slot → Bool
holds n empty = false
holds n unstarted = false
holds n (running m) = m == n

-- The watcher of a program, after its exit and after the control channel was drained.
unfoldable pub child_exited : ℕ → String → GoAgent → GoAgent
unfolding publish cleanup_after_exit announced_own_exit
child_exited n rid a =
    if a.stopping || not (holds n a.cmd)
    then a
    else if announced_own_exit rid a
    then cleanup_after_exit a
    else cleanup_after_exit (publish (ended (spawned n) "FAILED" rid) a)

-- Without a process: Stop turns to the process that was adopted, if there is one.
abbrev pub stop_adopted_locked : GoAgent → GoAgent × Call
stop_adopted_locked a = (
  record a { stopping = true; adopted_watch = none },
  joining a.adopted_watch (stops_adopted a.adopted_pid a.adopted_epoch a.next_run_id),
)

unfoldable pub stop_unspawned : GoAgent → GoAgent × Call
stop_unspawned a =
    if not (a.adopted_pid == 0)
    then stop_adopted_locked a
    else (record a { adopted_watch = none }, joining a.adopted_watch returns)

abbrev pub stop_slot : Slot → GoAgent → GoAgent × Call
stop_slot empty a = stop_unspawned a
stop_slot unstarted a = stop_unspawned a
stop_slot (running n) a = (record a { stopping = true }, in_stop n a.next_run_id)

-- `Stop` up to its wait.
unfoldable pub stop : GoAgent → GoAgent × Call
unfolding stop_unspawned
stop a = stop_slot a.cmd a

-- The socket is watched again.
unfoldable pub rearm : Sockets → GoAgent → GoAgent
unfolding arm
rearm net a = if not (same a.listen_spec "") && a.traffic_handler then arm net a else a

-- `Stop` behind its wait, whether or not the program had to be killed.
unfoldable pub stopped : Sockets → ℕ → String → GoAgent → GoAgent
unfolding publish cleanup_after_exit rearm
stopped net n rid a = rearm net (cleanup_after_exit (publish (ended (spawned n) "STOPPED" rid) a))

-- `Reset` up to the join; `dropAdoptedLocked` is part of it.
unfoldable pub reset : GoAgent → GoAgent × Call
unfolding cleanup_after_exit
reset a = (
  cleanup_after_exit (record a { adopted_pid = 0; adopted_epoch = 0; adopted_watch = none }),
  joining a.adopted_watch returns,
)
