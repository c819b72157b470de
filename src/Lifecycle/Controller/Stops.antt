-- ===== src/Lifecycle/Controller/Stops.antt =====
-- What a stop does in each state.
use gapi.Prelude.{◌≡◌, refl, String, Bool, true, false, List, [], ◌∷◌, ◌++◌, if◌then◌else◌, elem}
use mathlib.Core.List.{append_assoc, append-nil}
use gapi.Lifecycle.States.{LifecycleState, running, stopping, stopped, error}
use gapi.Lifecycle.Controller.{
  World, Controller, Outcome, ok, err, invalid_transition, Effect, control, stop, runner_stop,
  runner_reset, status_stopped, moved, transition, try_transition, enter, apply, apply_stop,
  stop_runner,
}

-- The states that a stop ends in STOPPED. The other five refuse it.
abbrev pub can_stop : LifecycleState → Bool
can_stop running = true
can_stop stopping = true
can_stop stopped = true
can_stop error = true
can_stop _ = false

-- What a stop does on its way.
abbrev pub stop_effects : LifecycleState → List Effect
stop_effects stopped = []
stop_effects stopping = runner_stop ∷ runner_reset ∷ status_stopped ∷ moved stopping stopped ∷ []
stop_effects s =
    control stop
    ∷ moved s stopping
    ∷ runner_stop
    ∷ runner_reset
    ∷ status_stopped
    ∷ moved stopping stopped
    ∷ []

abbrev stop_result : LifecycleState → Controller → Outcome Unit × Controller
stop_result s c =
    if can_stop s
    then (ok tt, record c { state = stopped; effects = c.effects ++ stop_effects s })
    else (
      err (invalid_transition s stopping),
      record c { state = s; effects = c.effects ++ control stop ∷ [] },
    )

apply_stop_in :
    (s : LifecycleState) (c : Controller) → apply_stop (record c { state = s }) ≡ stop_result s c
unfolding apply_stop stop_runner transition try_transition
apply_stop_in running c = simp append_assoc
apply_stop_in stopped c = simp append-nil
apply_stop_in stopping c = simp append_assoc
apply_stop_in error c = simp append_assoc
apply_stop_in _ c = refl

-- A stop of an agent that is running, stopping, stopped or in error ends in STOPPED, after the
-- runner was stopped and reset unless the agent was stopped already. In the other five states it
-- is announced and refused, and the runner is not asked.
pub apply-stop_lem :
    (w : World) (stack : List String) (c : Controller)
    → elem c.id stack ≡ false
    → apply w stack stop c ≡ (
        if can_stop c.state
        then (ok tt, record c { state = stopped; effects = c.effects ++ stop_effects c.state })
        else (
          err (invalid_transition c.state stopping),
          record c { effects = c.effects ++ control stop ∷ [] },
        ))
unfolding apply enter
apply-stop_lem w stack c fresh = rw fresh (apply_stop_in c.state c)
