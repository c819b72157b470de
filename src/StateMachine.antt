-- ===== src/StateMachine.antt =====
-- core/state/base_machine.go: the table-driven state machine under a mutex.
--
-- The states are a type with an equality test; the map of transitions is a function, with no
-- entry read as an empty list; an observer is its name. The lock makes each operation one step.
-- `go f(old, new)` starts a goroutine for each observer: the started calls are returned as a list.
pub mod Laws
use gapi.Prelude.{Bool, false, ◌||◌, List, [], ◌∷◌, ◌++◌, map, Option, none, some, if◌then◌else◌}

pub record BaseStateMachine (S O : Type 0) : Type 0 where
  pub current : S
  pub transitions : S → List S
  pub observers : List O

pub record Call (S O : Type 0) : Type 0 where
  pub observer : O
  pub from : S
  pub to : S

pub data TransitionError (S : Type 0) : Type 0 where
  invalid_transition : S → S → TransitionError S

module _ {S O : Type 0} where
  -- `NewBaseStateMachine` copies the table, so that the caller's later writes do not reach it.
  unfoldable pub new : S → (S → List S) → BaseStateMachine S O
  new initial allowed = record { current = initial; transitions = allowed; observers = [] }

  unfoldable pub get_state : BaseStateMachine S O → S
  get_state sm = sm.current

  unfoldable pub on_transition : O → BaseStateMachine S O → BaseStateMachine S O
  on_transition f sm = record sm { observers = sm.observers ++ f ∷ [] }

-- The loop over `allowed`.
unfoldable pub is_allowed : {S : Type 0} → (S → S → Bool) → S → List S → Bool
is_allowed eq new_state [] = false
is_allowed eq new_state (s ∷ allowed) = eq s new_state || is_allowed eq new_state allowed

module _ {S O : Type 0} (eq : S → S → Bool) where
  unfoldable pub transition_to :
      S → BaseStateMachine S O → BaseStateMachine S O × Option (TransitionError S) × List (Call S O)
  unfolding is_allowed
  transition_to new_state sm =
      if is_allowed eq new_state (sm.transitions sm.current)
      then (
        record sm { current = new_state },
        none,
        map (λ f. record { observer = f; from = sm.current; to = new_state }) sm.observers,
      )
      else (sm, some (invalid_transition sm.current new_state), [])

  -- A series of requests, and all the calls that it starts.
  unfoldable pub run_requests :
      List S → BaseStateMachine S O → BaseStateMachine S O × List (Call S O)
  unfolding transition_to
  run_requests [] sm = (sm, [])
  run_requests (s ∷ requests) sm =
      let (next, error, calls) = transition_to s sm in
      let (last, later) = run_requests requests next in (last, calls ++ later)
