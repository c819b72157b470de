-- ===== src/EventBus/OneShot.antt =====
-- The correlated one-shot wrapper, with the events that are queued for it before it has left the bus.
use gapi.Prelude.{
  ℕ, ◌≡◌, refl, String, Bool, true, false, List, [], ◌∷◌, none, some, same, if◌then◌else◌, arith,
}
use gapi.EventBus.Delivery.{Event, Handler, correlated}
use gapi.EventBus.Subscribe.{invoke, fire_once}

module _ {ℓ} {T : Type ℓ} where
  -- The handler on a queue of events: the closures called, each with its event.
  unfoldable pub reactions : Handler T → Bool → List (Event T) → List (ℕ × Event T)
  unfolding invoke fire_once
  reactions h fired [] = []
  reactions h fired (e ∷ es) =
      let r = invoke h fired e in
      let rest = reactions h r.fired_after es in
      elim r.calls [ none ↦ rest | some c ↦ (c, e) ∷ rest ]

  -- The first event of the id, alone.
  unfoldable pub first_of : String → List (Event T) → List (Event T)
  first_of corr_id [] = []
  first_of corr_id (e ∷ es) = if same e.event_id corr_id then e ∷ [] else first_of corr_id es

  unfoldable pub with_closure : ℕ → List (Event T) → List (ℕ × Event T)
  with_closure c [] = []
  with_closure c (e ∷ es) = (c, e) ∷ with_closure c es

  correlated_spent :
      (key corr_id : String) (c : ℕ) (es : List (Event T))
      → reactions (correlated key corr_id c) true es ≡ []
  unfolding reactions invoke fire_once
  correlated_spent key corr_id c [] = refl
  correlated_spent key corr_id c (e ∷ es) = ground (arith, correlated_spent key corr_id c es)

  -- `SubscribeCorrelated` calls its handler with the first queued event that has the wanted id, and
  -- with no other, whatever else is queued.
  pub reactions-correlated :
      (key corr_id : String) (c : ℕ) (es : List (Event T))
      → reactions (correlated key corr_id c) false es ≡ with_closure c (first_of corr_id es)
  unfolding reactions invoke fire_once first_of with_closure
  reactions-correlated key corr_id c [] = refl
  reactions-correlated key corr_id c (e ∷ es) =
      ground (arith, reactions-correlated key corr_id c es, correlated_spent key corr_id c es)
