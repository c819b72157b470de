-- ===== src/Lifecycle/Controller.antt =====
-- core/lifecycle/controller.go: `ApplyWithContext` and what it calls.
--
-- An action runs on the controller's state and on the list of effects so far, the oldest first. The
-- runner, the resolver and the clock are given as a `World`: what each answers in this action, the
-- statuses that arrive while the runner starts the child (`early`), and what the wait is woken by after
-- those. `sets_run_id` says whether the runner is a `RunIDSetter`. The
-- stack of the context is a list of agent names. Log lines are left out, and so are failures to
-- publish, which are only logged.
mod Effects
pub mod Starts
pub mod Outcomes
pub mod Stops
pub mod Nested
unfoldable pub use Effects.*
use gapi.Prelude.{
  ℕ, String, Bool, true, false, not, List, [], ◌∷◌, ◌++◌, Option, none, some, if◌then◌else◌, elem,
  map,
}
use gapi.Lifecycle.States.{
  LifecycleState, initializing, starting, running, stopping, stopped, reloading, error, same_state,
}
use gapi.Lifecycle.Wait.{
  StatusEvt, StartTimeout, Report, Wake, status, feed_all, unread, await_running, await_target,
}

-- `DependencyResolver`, and whether it tells hard from soft.
pub data Resolver : Type 0 where
  no_resolver : Resolver
  unclassified : (deps : List String) → Resolver
  classified : (hard soft : List String) → Resolver

pub record World : Type 0 where
  pub deps : Resolver
  pub ensure_started : List String → String → Bool
  pub start_ok : Bool
  pub reload_ok : Bool
  pub sets_run_id : Bool
  pub run_id : String
  pub cutover : ℕ
  pub readiness_budget : ℕ
  pub silence_budget : ℕ
  pub early : List StatusEvt
  pub wakes : List Wake
  pub report : Report
  pub reload_statuses : List StatusEvt

-- `dependencyClasses`
unfoldable pub dependency_classes : Resolver → List String × List String
dependency_classes no_resolver = ([], [])
dependency_classes (unclassified deps) = (deps, [])
dependency_classes (classified hard soft) = (hard, soft)

-- The loop over the soft ones: a failure is only logged.
unfoldable pub ensure_soft : List String → List String → M Unit
ensure_soft stack [] = pure tt
ensure_soft stack (dep ∷ deps) = do emit (ensure dep); ensure_soft stack deps

-- `case ActionStop`
unfoldable pub stop_runner : M Unit
stop_runner = do emit runner_stop; emit runner_reset; emit status_stopped; try_transition stopped

unfoldable pub apply_stop : M Unit
unfolding stop_runner
apply_stop = do
  state ← get_state
  if same_state state stopped
      then pure tt
      else if same_state state stopping
      then stop_runner
      else (emit (control stop) >> transition stopping >> stop_runner)

-- The entry of `ApplyWithContext`: the cycle check, and the stack with this agent on it.
unfoldable pub enter : List String → (List String → M Unit) → M Unit
enter stack body = do
  id ← agent_id
  if elem id stack then throw (cycle_detected stack id) else body (stack ++ id ∷ [])

-- The end of a wait: the failed transition is ignored, and the failure is published.
unfoldable pub finish_start : Option StartTimeout → M Unit
finish_start none = transition running
finish_start (some timeout) = do
  try_transition error
  emit (failed timeout)
  throw (start_timed_out timeout)

module _ (w : World) where
  -- The loop over the hard dependencies: the first failure ends the start.
  unfoldable pub ensure_hard : List String → List String → M Unit
  ensure_hard stack [] = pure tt
  ensure_hard stack (dep ∷ deps) = do
    emit (ensure dep)
    guard (w.ensure_started stack dep) (dependency_failed dep)
    ensure_hard stack deps

  -- After a spawn that succeeded: STARTING, the wait, and RUNNING or the reported failure.
  unfoldable pub await_start : M Unit
  unfolding finish_start unread
  await_start = do
    transition starting
    id ← agent_id
    arrived ← get_feed
    set_feed (unread w.run_id w.cutover arrived)
    finish_start (
        await_running id w.run_id w.readiness_budget w.silence_budget w.cutover w.report
          (map status arrived ++ w.wakes))

  -- `if s, ok := c.runner.(RunIDSetter); ok`
  abbrev pub tell_run_id : M Unit
  tell_run_id = if w.sets_run_id then emit (runner_set_run_id w.run_id) else pure tt

  -- `c.runner.Start`: the child's first statuses reach the feed while it runs.
  abbrev pub run_start : M Unit
  run_start = do emit runner_start; arrive w.early

  -- From the start marker to its release.
  unfoldable pub start_marked : List String → M Unit
  unfolding ensure_hard ensure_soft await_start feed_all
  start_marked stack = do
    let classes = dependency_classes w.deps
    ensure_hard stack classes.0
    ensure_soft stack classes.1
    emit (control start)
    tell_run_id
    drain
    run_start
    if w.start_ok then await_start else (try_transition error >> throw runner_failed)

  -- `case ActionStart`, with the deferred `endStart`.
  unfoldable pub claim_start : List String → M Unit
  unfolding start_marked
  claim_start stack = do
    claimed ← begin_start
    if claimed then finally_end_start (start_marked stack) else pure tt

  unfoldable pub apply_start : List String → M Unit
  unfolding claim_start
  apply_start stack = do state ← get_state; if is_started state then pure tt else claim_start stack

  -- `case ActionReload`: a reload of an agent that is not running calls `ApplyWithContext` again,
  -- with the context that the entry made.
  unfoldable pub reload_running : M Unit
  reload_running = do
    emit (control reload)
    transition reloading
    emit runner_reload
    if not w.reload_ok
        then try_transition error >> throw runner_failed
        else if await_target "running" w.reload_statuses
        then transition running
        else (try_transition error >> throw reload_timed_out)

  unfoldable pub apply_reload : List String → M Unit
  unfolding apply_start enter reload_running
  apply_reload stack = do
    state ← get_state
    if same_state state running then reload_running else enter stack apply_start

  -- `case ActionRestart`: both nested calls get the context that the entry made.
  unfoldable pub apply_restart : List String → M Unit
  unfolding apply_start apply_stop enter
  apply_restart stack = do
    emit (control restart)
    wrap_error restart_stop (enter stack (λ _. apply_stop))
    enter stack apply_start

  -- `ApplyWithContext`
  unfoldable pub apply : List String → Action → M Unit
  unfolding apply_start apply_stop apply_reload apply_restart enter
  apply stack initialize = enter stack (λ _. transition initializing)
  apply stack start = enter stack apply_start
  apply stack stop = enter stack (λ _. apply_stop)
  apply stack reload = enter stack apply_reload
  apply stack restart = enter stack apply_restart
  apply stack (other name) = enter stack (λ _. throw (unknown_action name))
