-- ===== src/Lifecycle/Controller/Effects.antt =====
-- The controller's state, its errors and effects, and the statements that change them.
use gapi.Prelude.{String, Bool, true, false, List, [], ◌∷◌, ◌++◌, none, some, if◌then◌else◌, ◌||◌}
use gapi.StateMachine.{transition_to, BaseStateMachine}
use gapi.Lifecycle.States.{
  LifecycleState, starting, running, reloading, same_state, lifecycle_table, Observer,
  emit_lifecycle_event,
}
use gapi.Lifecycle.Wait.{StatusEvt, StartTimeout, feed_all}

pub data Action : Type 0 where
  initialize start stop restart reload : Action
  other : String → Action

pub data Err : Type 0 where
  cycle_detected : List String → String → Err
  invalid_transition : LifecycleState → LifecycleState → Err
  dependency_failed : String → Err
  runner_failed reload_timed_out : Err
  start_timed_out : StartTimeout → Err
  restart_stop : Err → Err
  unknown_action : String → Err

pub data Effect : Type 0 where
  control : Action → Effect
  ensure : String → Effect
  runner_set_run_id : String → Effect
  runner_start runner_stop runner_reset runner_reload : Effect
  status_stopped : Effect
  failed : StartTimeout → Effect
  moved : LifecycleState → LifecycleState → Effect

pub record Controller : Type 0 where
  pub id : String
  pub state : LifecycleState
  pub starting_now : Bool
  pub state_ch : List StatusEvt
  pub effects : List Effect

pub data Outcome (A : Type 0) : Type 0 where
  ok : A → Outcome A
  err : Err → Outcome A

abbrev pub M : Type 0 → Type 0
M A = Controller → Outcome A × Controller

module _ {A : Type 0} where
  abbrev pub pure : A → M A
  pure a c = (ok a, c)

  abbrev pub throw : Err → M A
  throw e c = (err e, c)

module _ {A B : Type 0} where
  abbrev pub continue : Outcome A × Controller → (A → M B) → Outcome B × Controller
  continue (ok a, c) f = f a c
  continue (err e, c) f = (err e, c)

  infixl 5 ◌>>=◌ ◌>>◌
  abbrev pub ◌>>=◌ : M A → (A → M B) → M B
  (m >>= f) c = continue (m c) f

  abbrev pub ◌>>◌ : M A → M B → M B
  m >> n = m >>= λ _. n

abbrev pub emit : Effect → M Unit
emit e c = (ok tt, record c { effects = c.effects ++ e ∷ [] })

abbrev pub guard : Bool → Err → M Unit
guard b e = if b then pure tt else throw e

abbrev pub agent_id : M String
agent_id c = (ok c.id, c)

abbrev pub get_state : M LifecycleState
get_state c = (ok c.state, c)

-- The `Drain` loop empties the feed.
abbrev pub drain : M Unit
drain c = (ok tt, record c { state_ch = [] })

-- The handler feeds the channel, and a wait reads from it.
abbrev pub arrive : List StatusEvt → M Unit
arrive evts c = (ok tt, record c { state_ch = feed_all evts c.state_ch })

abbrev pub get_feed : M (List StatusEvt)
get_feed c = (ok c.state_ch, c)

abbrev pub set_feed : List StatusEvt → M Unit
set_feed evts c = (ok tt, record c { state_ch = evts })

abbrev machine : LifecycleState → BaseStateMachine LifecycleState Observer
machine s = record {
  current = s;
  transitions = lifecycle_table;
  observers = emit_lifecycle_event ∷ [];
}

-- `c.sm.TransitionTo`: a change is published by the machine's observer.
unfoldable pub transition : LifecycleState → M Unit
unfolding transition_to lifecycle_table
transition s c =
    let (sm, error, calls) = transition_to same_state s (machine c.state) in
    elim error [
      | none ↦ (ok tt, record c { state = sm.current; effects = c.effects ++ moved c.state s ∷ [] })
      | some _ ↦ (err (invalid_transition c.state s), c)
    ]

-- `_ = c.sm.TransitionTo(s)`
unfoldable pub try_transition : LifecycleState → M Unit
unfolding transition
try_transition s c = (ok tt, (transition s c).1)

-- `StateStarting, StateRunning, StateReloading`
abbrev pub is_started : LifecycleState → Bool
is_started s = same_state s starting || (same_state s running || same_state s reloading)

-- `beginStart` and `endStart`
unfoldable pub begin_start : M Bool
begin_start c =
    if c.starting_now then (ok false, c) else (ok true, record c { starting_now = true })

unfoldable pub end_start : Controller → Controller
end_start c = record c { starting_now = false }

-- `defer c.endStart()`
abbrev pub finally_end_start : M Unit → M Unit
finally_end_start m c = let (result, after) = m c in (result, end_start after)

-- `fmt.Errorf("...: %w", err)`
abbrev pub wrap_error : (Err → Err) → M Unit → M Unit
wrap_error f m c =
    let (result, after) = m c in (elim result [ ok a ↦ ok a | err e ↦ err (f e) ], after)
