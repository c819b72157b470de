-- ===== src/Runner/Ends.antt =====
-- The parts of the calls, and the exits of adopted processes: the reports of an agent's programs stay in
-- order.
use gapi.Prelude.{
  ℕ, ◌≡◌, refl, String, Bool, true, false, not, Option, none, some, arith, if◌then◌else◌, same,
}
use gapi.Limits.{Floats, Limit, limit, bad, parse_resource_spec}
use gapi.Runner.Agent.{
  Slot, empty, unstarted, running, spawned, adopted, starting, ended, GoAgent, publish,
  cleanup_after_exit, Sockets, ensure_listener,
}
use gapi.Runner.Calls.{
  Then, returns, stops_adopted, adopts, Call, idle, in_oneshot, in_stop, joining, in_stop_adopted,
  Answers, Begun, no_pipe, no_stdout, no_stderr, not_spawned, after_spawn, spawn, with_socket,
  with_limits, start_slot, start, stop, stop_slot, stop_unspawned, stopped, reset,
}
use gapi.Runner.Adopted.{
  StopOutcome, adopted_exited, settle, adopted_stop_status, adopted_stopped, adopt_locked, go_on,
}
use gapi.Runner.Once.{watched, AgentOk, CallOk, reported-append, SameRuns, rearm-SameRuns}

module _ (n : ℕ) where
  abbrev pub SessionOk : GoAgent × Call → Type 0
  SessionOk (a, c) = AgentOk n a × CallOk n c a

  abbrev pub BegunOk : Begun → Type 0
  BegunOk x = SessionOk (x.0, x.1)

  either-BegunOk : (b : Bool) (x y : Begun) → BegunOk x → BegunOk y → BegunOk (if b then x else y)
  either-BegunOk true x y p q = p
  either-BegunOk false x y p q = q

  after_spawn-SessionOk : (a : GoAgent) → AgentOk n a → a.stopping ≡ false → BegunOk (after_spawn a)
  unfolding after_spawn publish watched
  after_spawn-SessionOk a h e = (
    ground (arith, h, reported-append n a.reports (starting a.spawns a.next_run_id)),
    by a.oneshot refl,
  )
    where
      by : (b : Bool) → a.oneshot ≡ b → CallOk n (after_spawn a).1 (after_spawn a).0
      by b e1 =
          ground (arith, h, e, e1, reported-append n a.reports (starting a.spawns a.next_run_id))

  spawn-SessionOk :
      (env : Answers) (a : GoAgent) → AgentOk n a → CallOk n idle a → BegunOk (spawn env a)
  unfolding spawn
  spawn-SessionOk env a h g =
      let b = record a { cmd = unstarted; stopping = false } in
      let c = record b { announced_state = ""; announced_run_id = ""; spoke = false } in
      let unready : AgentOk n b = ground (arith, h) in
      either-BegunOk (not env.pipe) (a, idle, some no_pipe) _ (h, g)
        (either-BegunOk (not env.stdout) (b, idle, some no_stdout) _ (unready, refl)
          (either-BegunOk (not env.stderr) (b, idle, some no_stderr) _ (unready, refl)
            (either-BegunOk (not env.exec) (c, idle, some not_spawned) (after_spawn c)
              (unready, refl) (after_spawn-SessionOk c unready refl))))

  ensure_listener-SameRuns : (net : Sockets) (a : GoAgent) → SameRuns n a (ensure_listener net a).0
  unfolding ensure_listener
  ensure_listener-SameRuns net a = ground arith

  with_socket-SessionOk :
      (env : Answers) (a : GoAgent) (x : GoAgent × Bool)
      → SameRuns n a x.0
      → AgentOk n a
      → CallOk n idle a
      → BegunOk (with_socket env x)
  with_socket-SessionOk env a (b, false) e h g = (ground (arith, e, h), ground (arith, e, g))
  with_socket-SessionOk env a (b, true) e h g =
      spawn-SessionOk env b (ground (arith, e, h)) (ground (arith, e, g))

  pub start-SessionOk :
      (fl : Floats) (env : Answers) (a : GoAgent)
      → AgentOk n a
      → CallOk n idle a
      → BegunOk (start fl env a)
  unfolding start
  start-SessionOk fl env a h g = by a.cmd
    where
      b : GoAgent
      b = record a { armed = false }

      limited : (l : Limit (fl.float × ℕ)) → BegunOk (with_limits fl env l b)
      limited (bad e) = (h, g)
      limited (limit l) =
          either-BegunOk (not (same a.listen_spec "")) _ (spawn env b)
            (with_socket-SessionOk env b (ensure_listener env.sockets b)
              (ensure_listener-SameRuns env.sockets b) h g)
            (spawn-SessionOk env b h g)

      by : (sl : Slot) → BegunOk (start_slot fl env sl b)
      by empty = limited (parse_resource_spec fl a.cpu_limit a.mem_limit)
      by unstarted = limited (parse_resource_spec fl a.cpu_limit a.mem_limit)
      by (running m) = (h, g)

  pub stop-SessionOk : (a : GoAgent) → AgentOk n a → CallOk n idle a → SessionOk (stop a)
  unfolding stop stop_unspawned
  stop-SessionOk a h g = by a.cmd refl
    where
      by : (sl : Slot) → a.cmd ≡ sl → SessionOk (stop_slot sl a)
      by empty e = (ground (arith, h), ground (arith, e))
      by unstarted e = (ground (arith, h), ground (arith, e))
      by (running m) e = (ground (arith, h), ground (arith, h, g, e))

  pub reset-SessionOk : (a : GoAgent) → AgentOk n a → CallOk n idle a → SessionOk (reset a)
  unfolding reset cleanup_after_exit
  reset-SessionOk a h g = (ground (arith, h), refl)

  pub stopped-SessionOk :
      (net : Sockets) (m : ℕ) (rid : String) (a : GoAgent)
      → AgentOk n a
      → CallOk n (in_stop m rid) a
      → SessionOk (stopped net m rid a, idle)
  unfolding stopped publish cleanup_after_exit
  stopped-SessionOk net m rid a h g =
      let said_so = reported-append n a.reports (ended (spawned m) "STOPPED" rid) in
      let b = cleanup_after_exit (publish (ended (spawned m) "STOPPED" rid) a) in
      (
        ground (arith, h, g, said_so, rearm-SameRuns n net b),
        ground (arith, h, g, rearm-SameRuns n net b),
      )

  pub adopted_exited-AgentOk :
      (pid epoch : ℕ) (a : GoAgent) → AgentOk n a → AgentOk n (adopted_exited pid epoch a)
  unfolding adopted_exited publish cleanup_after_exit
  adopted_exited-AgentOk pid epoch a h =
      ground (arith, h, reported-append n a.reports (ended adopted "FAILED" a.next_run_id))

  -- An adopted process that ends leaves the call that is under way in order, too.
  pub adopted_exited-CallOk :
      (pid epoch : ℕ) (c : Call) (a : GoAgent)
      → CallOk n c a
      → CallOk n c (adopted_exited pid epoch a)
  unfolding adopted_exited publish cleanup_after_exit
  adopted_exited-CallOk pid epoch idle a g = ground (arith, g)
  adopted_exited-CallOk pid epoch (in_oneshot m rid) a g =
      ground (arith, g, reported-append n a.reports (ended adopted "FAILED" a.next_run_id))
  adopted_exited-CallOk pid epoch (in_stop m rid) a g = ground (arith, g)
  adopted_exited-CallOk pid epoch (joining w returns) a g = ground (arith, g)
  adopted_exited-CallOk pid epoch (joining w (stops_adopted p e rid)) a g = ground (arith, g)
  adopted_exited-CallOk pid epoch (joining w (adopts p)) a g = refl
  adopted_exited-CallOk pid epoch (in_stop_adopted p e rid) a g = ground (arith, g)

  pub adopted_stopped-SessionOk :
      (net : Sockets) (rid : String) (o : StopOutcome) (p e : ℕ) (a : GoAgent)
      → AgentOk n a
      → CallOk n (in_stop_adopted p e rid) a
      → SessionOk (adopted_stopped net rid o a, idle)
  unfolding adopted_stopped publish cleanup_after_exit
  adopted_stopped-SessionOk net rid o p e a h g = by (adopted_stop_status o)
    where
      by : (st : Option String) → SessionOk (settle net rid st a, idle)
      by none = (h, ground (arith, g))
      by (some st) =
          let said_so = reported-append n a.reports (ended adopted st rid) in
          let b =
            cleanup_after_exit
              (publish (ended adopted st rid) (record a { adopted_pid = 0; adopted_epoch = 0 })) in
          let kept = rearm-SameRuns n net b in
          (ground (arith, h, said_so, kept), ground (arith, kept))

  pub go_on-SessionOk :
      (w : Option ℕ) (t : Then) (epoch : Option ℕ) (a : GoAgent)
      → AgentOk n a
      → CallOk n (joining w t) a
      → SessionOk (go_on t epoch a)
  unfolding adopt_locked
  go_on-SessionOk w returns epoch a h g = (h, ground (arith, g))
  go_on-SessionOk w (stops_adopted p e rid) epoch a h g = (h, g)
  go_on-SessionOk w (adopts p) none a h g = (ground (arith, h), refl)
  go_on-SessionOk w (adopts p) (some e) a h g = (ground (arith, h), refl)
