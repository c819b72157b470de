-- ===== src/Lifecycle/Controller/Nested.antt =====
-- Actions that call `ApplyWithContext` again.
use gapi.Prelude.{
  ◌≡◌, String, true, false, List, [], ◌∷◌, ◌++◌, arith, elem, same_refl, elem-append,
}
use gapi.Lifecycle.States.{running, same_state}
use gapi.Lifecycle.Controller.{
  World, M, Controller, err, cycle_detected, restart_stop, control, restart, reload, enter, apply,
}

elem-snoc : (id : String) (stack : List String) → elem id (stack ++ id ∷ []) ≡ true
unfolding elem
elem-snoc id stack = ground (arith, elem-append id stack (id ∷ []), same_refl id)

-- The second entry finds this agent on the stack that the first entry made.
enter_again :
    (stack : List String) (body : List String → M Unit) (c : Controller)
    → enter (stack ++ c.id ∷ []) body c ≡ (err (cycle_detected (stack ++ c.id ∷ []) c.id), c)
unfolding enter
enter_again stack body c = rw (elem-snoc c.id stack)

-- A restart never stops and never starts the agent: it announces itself and then takes its own
-- nested call for a dependency cycle, in every state and whatever the runner would do.
pub apply-restart :
    (w : World) (stack : List String) (c : Controller)
    → elem c.id stack ≡ false
    → apply w stack restart c ≡ (
      err (restart_stop (cycle_detected (stack ++ c.id ∷ []) c.id)),
      record c { effects = c.effects ++ control restart ∷ [] },
    )
unfolding apply enter
apply-restart w stack c fresh = rw (fresh, elem-snoc c.id stack)

-- A reload of an agent that is not running does not start it either.
pub apply-reload_idle :
    (w : World) (stack : List String) (c : Controller)
    → elem c.id stack ≡ false
    → same_state c.state running ≡ false
    → apply w stack reload c ≡ (err (cycle_detected (stack ++ c.id ∷ []) c.id), c)
unfolding apply enter
apply-reload_idle w stack c fresh idle = rw (fresh, idle, elem-snoc c.id stack)
