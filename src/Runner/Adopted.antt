-- ===== src/Runner/Adopted.antt =====
-- core/agentmgr/adopted.go and checkpoint.go: a process that was restored from a checkpoint, which the
-- agent has to watch for, and to stop by its pid and start epoch.
use gapi.Prelude.{
  ℕ, suc, ◌==◌, String, Bool, true, false, not, ◌||◌, List, [], ◌∷◌, Option, none, some, filter,
  if◌then◌else◌, same,
}
use gapi.Runner.Agent.{
  empty, adopted, ended, AdoptedWatch, GoAgent, publish, cleanup_after_exit, Sockets,
}
use gapi.Runner.Calls.{
  Then, returns, stops_adopted, adopts, Call, idle, joining, in_stop_adopted, rearm,
}

-- How `procsig.Signal` answers.
pub data Signalled : Type 0 where
  delivered process_gone stale_epoch signal_failed : Signalled

-- How `stopAdopted` ends.
pub data StopOutcome : Type 0 where
  exited deadline_exceeded recycled : StopOutcome
  failed : StopOutcome

abbrev pub after_kill : Signalled → StopOutcome
after_kill delivered = deadline_exceeded
after_kill process_gone = deadline_exceeded
after_kill stale_epoch = recycled
after_kill signal_failed = failed

-- By the answer to SIGTERM, whether the process went while the context lasted, and the answer to
-- SIGKILL.
unfoldable pub stop_adopted : Signalled → Bool → Signalled → StopOutcome
stop_adopted delivered went kill = if went then exited else after_kill kill
stop_adopted process_gone went kill = exited
stop_adopted stale_epoch went kill = recycled
stop_adopted signal_failed went kill = failed

-- `adoptedStopStatus`; `none` leaves the claim as it is.
abbrev pub adopted_stop_status : StopOutcome → Option String
adopted_stop_status exited = some "STOPPED"
adopted_stop_status deadline_exceeded = some "STOPPED"
adopted_stop_status recycled = some "FAILED"
adopted_stop_status failed = none

-- What /proc shows of a pid: nothing, something that cannot be read, or a state and an epoch.
pub data ProcStat : Type 0 where
  no_entry unreadable : ProcStat
  entry : String → ℕ → ProcStat

unfoldable pub adopted_has_exited : ℕ → ProcStat → Bool
adopted_has_exited epoch no_entry = true
adopted_has_exited epoch unreadable = false
adopted_has_exited epoch (entry state current) =
    if not (current == epoch) then true else same state "Z" || same state "X"

-- `waitAdoptedExit`, by what each look shows; the last look is the one after the deadline.
unfoldable pub wait_adopted_exit : ℕ → List ProcStat → Bool
unfolding adopted_has_exited
wait_adopted_exit epoch [] = false
wait_adopted_exit epoch (s ∷ ss) =
    let rest = wait_adopted_exit epoch ss in if adopted_has_exited epoch s then true else rest

-- `adoptedExited`
unfoldable pub adopted_exited : ℕ → ℕ → GoAgent → GoAgent
unfolding publish cleanup_after_exit
adopted_exited pid epoch a =
    if a.stopping || (not (a.adopted_pid == pid) || not (a.adopted_epoch == epoch))
    then a
    else cleanup_after_exit (
        publish (ended adopted "FAILED" a.next_run_id)
          (record a { adopted_pid = 0; adopted_epoch = 0 }))

abbrev pub settle : Sockets → String → Option String → GoAgent → GoAgent
settle net rid none a = record a { stopping = false }
settle net rid (some state) a = rearm net (
    cleanup_after_exit
      (publish (ended adopted state rid) (record a { adopted_pid = 0; adopted_epoch = 0 })))

-- `stopAdoptedLocked` behind the wait.
unfoldable pub adopted_stopped : Sockets → String → StopOutcome → GoAgent → GoAgent
unfolding publish cleanup_after_exit rearm
adopted_stopped net rid o a = settle net rid (adopted_stop_status o) a

-- `adopt` up to the join.
unfoldable pub adopt : ℕ → GoAgent → GoAgent × Call
adopt pid a = (record a { adopted_watch = none }, joining a.adopted_watch (adopts pid))

abbrev pub with_epoch : ℕ → Option ℕ → GoAgent → GoAgent
with_epoch pid none a = a
with_epoch pid (some epoch) a =
    let w : AdoptedWatch = record { number = a.adoptions; pid = pid; epoch = epoch } in
    record a {
      adopted_epoch = epoch;
      adopted_watch = some a.adoptions;
      adopted_watchers = w ∷ a.adopted_watchers;
      adoptions = suc a.adoptions;
    }

-- `adopt` behind the join; the epoch may not be found.
unfoldable pub adopt_locked : ℕ → Option ℕ → GoAgent → GoAgent
adopt_locked pid epoch a =
    with_epoch pid epoch
      (record a { cmd = empty; adopted_pid = pid; adopted_epoch = 0; stopping = false })

-- The watcher has ended that a call joins; a call that has taken none does not wait.
abbrev pub join : Option ℕ → GoAgent → GoAgent
join none a = a
join (some k) a = record a {
  adopted_watchers = filter (λ (w : AdoptedWatch). not (w.number == k)) a.adopted_watchers;
}

-- How a call goes on that has joined.
abbrev pub go_on : Then → Option ℕ → GoAgent → GoAgent × Call
go_on returns epoch a = (a, idle)
go_on (stops_adopted pid e rid) epoch a = (a, in_stop_adopted pid e rid)
go_on (adopts pid) epoch a = (adopt_locked pid epoch a, idle)
