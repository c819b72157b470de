-- ===== src/Lifecycle/States/Reachable.antt =====
-- The states that an agent can reach.
use gapi.Prelude.{◌≡◌, ◌≢◌, refl, ◌↔◌, true, List, [], ◌∷◌, arith}
use gapi.StateMachine.{is_allowed, run_requests}
use gapi.StateMachine.Laws.{run_requests_ind, run_requests-keeps}
use mathlib.Core.Path.{subst}
use gapi.Lifecycle.States.{
  LifecycleState, initialized, initializing, restarting, starting, running, stopping, stopped,
  reloading, error, same_state, lifecycle_table, new_lifecycle_state_machine,
}

abbrev pub after : List LifecycleState → LifecycleState
after requests = (run_requests same_state requests new_lifecycle_state_machine).0.current

-- Seven of the nine states: an agent is reported in no other.
abbrev pub IsReachable : LifecycleState → Type 0
IsReachable s = (s ≢ initializing) × (s ≢ initialized)

step-IsReachable :
    (from to : LifecycleState)
    → IsReachable from
    → is_allowed same_state to (lifecycle_table from) ≡ true
    → IsReachable to
unfolding is_allowed lifecycle_table
step-IsReachable from to r h = ground arith

-- Whatever is requested of a new machine, it never reaches `initializing` or `initialized`.
pub after-IsReachable : (requests : List LifecycleState) → IsReachable (after requests)
unfolding new_lifecycle_state_machine
after-IsReachable requests =
    run_requests_ind same_state IsReachable lifecycle_table step-IsReachable requests
      new_lifecycle_state_machine refl (ground arith)

path_to :
    (s : LifecycleState) → IsReachable s → (requests : List LifecycleState) × (after requests ≡ s)
unfolding new_lifecycle_state_machine run_requests
path_to initializing r = absurd (r.0 refl)
path_to initialized r = absurd (r.1 refl)
path_to stopped r = ([], refl)
path_to starting r = (starting ∷ [], refl)
path_to running r = (starting ∷ running ∷ [], refl)
path_to stopping r = (starting ∷ running ∷ stopping ∷ [], refl)
path_to reloading r = (starting ∷ running ∷ reloading ∷ [], refl)
path_to restarting r = (restarting ∷ [], refl)
path_to error r = (error ∷ [], refl)

-- The states that requests can bring a new machine to are exactly those other than
-- `initializing` and `initialized`.
pub after_iff :
    (s : LifecycleState) → ((requests : List LifecycleState) × (after requests ≡ s)) ↔ IsReachable s
after_iff s = (λ (requests, e). subst IsReachable e (after-IsReachable requests), path_to s)

-- A machine that was brought to `restarting` stays there.
pub restarting_stuck :
    (before requests : List LifecycleState)
    → after before ≡ restarting
    → (run_requests same_state requests
        (run_requests same_state before new_lifecycle_state_machine).0).0.current
      ≡ restarting
unfolding new_lifecycle_state_machine lifecycle_table is_allowed
restarting_stuck before requests e =
    run_requests_ind same_state (λ s. s ≡ restarting) lifecycle_table (λ from to r h. ground arith)
      requests (run_requests same_state before new_lifecycle_state_machine).0
      (run_requests-keeps same_state before new_lifecycle_state_machine).0 e
