-- ===== src/Lifecycle/States.antt =====
-- core/lifecycle/machine.go: the states of an agent and the table of its transitions.
pub mod Reachable
use gapi.Prelude.{ℕ, Bool, List, [], ◌∷◌, ◌==◌, String}
use gapi.StateMachine.{BaseStateMachine}
use gapi.StateMachine

-- The constants `StateInitializing` and so on.
pub data LifecycleState : Type 0 where
  initializing initialized starting running stopping stopped reloading restarting error :
      LifecycleState

abbrev state_number : LifecycleState → ℕ
state_number initializing = 0
state_number initialized = 1
state_number starting = 2
state_number running = 3
state_number stopping = 4
state_number stopped = 5
state_number reloading = 6
state_number restarting = 7
state_number error = 8

-- `==` on the constants.
abbrev pub same_state : LifecycleState → LifecycleState → Bool
same_state a b = state_number a == state_number b

-- The map that `NewLifecycleStateMachine` passes; `restarting` is no key of it.
unfoldable pub lifecycle_table : LifecycleState → List LifecycleState
lifecycle_table initializing = initialized ∷ starting ∷ error ∷ []
lifecycle_table initialized = starting ∷ restarting ∷ stopped ∷ error ∷ []
lifecycle_table starting = running ∷ error ∷ []
lifecycle_table running = stopping ∷ reloading ∷ restarting ∷ error ∷ []
lifecycle_table stopping = stopped ∷ error ∷ []
lifecycle_table stopped = starting ∷ restarting ∷ error ∷ []
lifecycle_table reloading = running ∷ error ∷ []
lifecycle_table restarting = []
lifecycle_table error = stopping ∷ stopped ∷ starting ∷ restarting ∷ []

-- The one observer, which publishes the transition event.
pub data Observer : Type 0 where
  emit_lifecycle_event : Observer

unfoldable pub new_lifecycle_state_machine : BaseStateMachine LifecycleState Observer
unfolding StateMachine.new StateMachine.on_transition lifecycle_table
new_lifecycle_state_machine =
    StateMachine.on_transition emit_lifecycle_event (StateMachine.new stopped lifecycle_table)

-- The enumeration `AgentState` of the wire format, as far as `CurrentProtoState` uses it.
pub data AgentState : Type 0 where
  unspecified initializing initialized starting started running stopping stopped failed reloading :
      AgentState

-- `CurrentProtoState`: no constant is spelled "started", and `restarting` has no case.
unfoldable pub current_proto_state : BaseStateMachine LifecycleState Observer → AgentState
unfolding StateMachine.get_state
current_proto_state sm = elim (StateMachine.get_state sm) [
  | LifecycleState.initializing ↦ AgentState.initializing
  | LifecycleState.initialized ↦ AgentState.initialized
  | LifecycleState.starting ↦ AgentState.starting
  | LifecycleState.running ↦ AgentState.running
  | LifecycleState.stopping ↦ AgentState.stopping
  | LifecycleState.stopped ↦ AgentState.stopped
  | LifecycleState.reloading ↦ AgentState.reloading
  | LifecycleState.restarting ↦ AgentState.unspecified
  | LifecycleState.error ↦ AgentState.failed
]
