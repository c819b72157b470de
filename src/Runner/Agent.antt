-- ===== src/Runner/Agent.antt =====
-- core/agentmgr/go_agent.go: an agent's process, from its start to the report of its end.
--
-- A program that was spawned is known by a number, which no other has. Each definition is what is done
-- in one go under the mutex: a call that gives the lock up has a part before and a part after. What
-- is written to the bus is a list of reports. Pipes, clocks, environments and cgroups are left out.
use gapi.Prelude.{
  ℕ, String, Bool, true, false, not, ◌&&◌, List, [], ◌∷◌, ◌++◌, Option, none, if◌then◌else◌, same,
}
use gapi.Runner.Control.{is_terminal}

-- What `cmd` holds: nothing, a command without a process, or a process.
pub data Slot : Type 0 where
  empty unstarted : Slot
  running : ℕ → Slot

-- Who a report is about: the program of a number, or the process that was adopted.
pub data About : Type 0 where
  spawned : ℕ → About
  adopted : About

pub data Report : Type 0 where
  -- The supervisor saw it start.
  starting : ℕ → String → Report
  -- The supervisor saw it end.
  ended : About → String → String → Report
  -- It said so itself.
  said : String → String → Report

-- A watcher of an adopted process, known by a number, with the pid and the epoch that it looks for.
pub record AdoptedWatch : Type 0 where
  pub number : ℕ
  pub pid : ℕ
  pub epoch : ℕ

-- The part of a `GoAgent` that its runs depend on. `watchers` are the exit watchers that have not
-- acted, with the program and its run, and `spawns` counts the programs; `adopted_watchers` are the
-- watchers of adopted processes that go on, and `adoptions` counts them.
pub record GoAgent : Type 0 where
  pub oneshot : Bool
  pub cpu_limit : String
  pub mem_limit : String
  pub listen_spec : String
  pub has_bus : Bool
  pub enabled : Bool
  pub next_run_id : String
  pub cmd : Slot
  pub stopping : Bool
  pub listener : Bool
  pub traffic_handler : Bool
  pub armed : Bool
  pub announced_state : String
  pub announced_run_id : String
  pub spoke : Bool
  pub adopted_pid : ℕ
  pub adopted_epoch : ℕ
  pub adopted_watch : Option ℕ
  pub watchers : List (ℕ × String)
  pub spawns : ℕ
  pub adopted_watchers : List AdoptedWatch
  pub adoptions : ℕ
  pub reports : List Report

-- `publishStatusWithRunID`
unfoldable pub publish : Report → GoAgent → GoAgent
publish r a = if not a.has_bus then a else record a { reports = a.reports ++ r ∷ [] }

unfoldable pub cleanup_after_exit : GoAgent → GoAgent
cleanup_after_exit a = record a { cmd = empty }

unfoldable pub set_run_id : String → GoAgent → GoAgent
set_run_id id a = record a { next_run_id = id }

unfoldable pub set_enabled : Bool → GoAgent → GoAgent
set_enabled v a = record a { enabled = v }

-- `noteAnnouncedState` and `noteFrameSeen`
unfoldable pub note_announced_state : String → String → GoAgent → GoAgent
note_announced_state state run_id a = record a {
  announced_state = state;
  announced_run_id = run_id;
}

unfoldable pub note_frame_seen : GoAgent → GoAgent
note_frame_seen a = if not a.spoke then record a { spoke = true } else a

-- `announcedOwnExitLocked`
unfoldable pub announced_own_exit : String → GoAgent → Bool
announced_own_exit run_id a = same a.announced_run_id run_id && is_terminal a.announced_state

-- How the system answers when a socket is bound, and when its file is asked for.
pub record Sockets : Type 0 where
  pub bound : Bool
  pub file : Bool

-- `ensureListenerLocked`; the answer tells whether there was no error.
unfoldable pub ensure_listener : Sockets → GoAgent → GoAgent × Bool
ensure_listener net a =
    if same a.listen_spec ""
    then (a, true)
    else if a.listener
    then (a, net.file)
    else if net.bound
    then (record a { listener = true }, net.file)
    else (a, false)

-- `NewGoAgent`: a socket is bound at once, and a failure to do so is only logged.
unfoldable pub new_go_agent : Sockets → Bool → String → String → String → Bool → GoAgent
unfolding ensure_listener
new_go_agent net oneshot cpu mem spec has_bus =
    let a : GoAgent = record {
      oneshot = oneshot;
      cpu_limit = cpu;
      mem_limit = mem;
      listen_spec = spec;
      has_bus = has_bus;
      enabled = true;
      next_run_id = "";
      cmd = empty;
      stopping = false;
      listener = false;
      traffic_handler = false;
      armed = false;
      announced_state = "";
      announced_run_id = "";
      spoke = false;
      adopted_pid = 0;
      adopted_epoch = 0;
      adopted_watch = none;
      watchers = [];
      spawns = 0;
      adopted_watchers = [];
      adoptions = 0;
      reports = [];
    } in
    (ensure_listener net a).0

abbrev pub arm_ensured : GoAgent × Bool → GoAgent
arm_ensured (a, true) = record a { armed = true }
arm_ensured (a, false) = a

-- `armLocked`
unfoldable pub arm : Sockets → GoAgent → GoAgent
unfolding ensure_listener
arm net a =
    if a.armed then a else if not a.traffic_handler then a else arm_ensured (ensure_listener net a)

-- `watchLoop`, when there is traffic.
unfoldable pub on_traffic : GoAgent → GoAgent
on_traffic a = record a { armed = false }
