-- ===== src/EventBus/Samples.antt =====
-- A bus with a few subscriptions, and what the theorems say of it.
use gapi.Prelude.{
  ℕ, ◌+◌, if◌then◌else◌, ◌≤◌, ◌≡◌, refl, String, true, false, List, [], ◌∷◌, none, some, arith,
}
use gapi.EventBus.Delivery.{Event, user, new_delivery, send, stop}
use gapi.EventBus.Bus.{EventBus, new_event_bus, close, dispatch, publish}
use gapi.EventBus.Subscribe.{subscribe, find}
use gapi.EventBus.Fifo.{Turn, sent, taken, stopped}
use gapi.EventBus.Identity.{held_in, is_open, IsWellFormed, all_below}
use gapi.EventBus.Steps.{Op, subscribes, subscribes_once, delivers, publishes, steps, steps-held_in}
use gapi.EventBus.Dispatch.{is_addressed, on_found, find-dispatch}
use gapi.EventBus.Closed.{refusal, close-steps}

abbrev status : String → Event ℕ
status id = record {
  event_id = id;
  scope = "system";
  namespace = "";
  topic = "agent/lifecycle.status";
  payload = 7;
  source = "t";
  tags = [];
}

abbrev turns : List (Turn ℕ)
turns = sent (status "a") ∷ sent (status "b") ∷ taken ∷ stopped ∷ []

-- A send after a stop.
panics : (send (status "a") (stop (new_delivery 1 (user 0 0)))).panicked ≡ true
unfolding send stop new_delivery
panics = refl

abbrev program : List (Op ℕ)
program =
    subscribes "system" "" "agent/lifecycle.status" (user 0 5)
    ∷ subscribes_once "system" "" "agent/lifecycle.status" 6
    ∷ publishes none (status "a")
    ∷ delivers 2
    ∷ delivers 1
    ∷ []

steps-held_in_example :
    held_in 2 (steps program new_event_bus).subs
      + held_in 2 (steps program new_event_bus).prefix_subs
    ≤ (if is_open 2 (steps program new_event_bus).deliveries then 1 else 0)
steps-held_in_example = steps-held_in program 2 (omega arith)

abbrev one_subscriber : EventBus ℕ
one_subscriber = record {
  subs =
      ("system/default/agent/lifecycle.status", record { id = 1; entry_fn = user 0 5 } ∷ []) ∷ [];
  prefix_subs = [];
  next_sub_id = 1;
  is_closed = false;
  deliveries = new_delivery 1 (user 0 5) ∷ [];
}

one_subscriber-IsWellFormed : IsWellFormed one_subscriber
unfolding all_below held_in is_open new_delivery
one_subscriber-IsWellFormed = (refl, λ i. ground arith)

find-dispatch_example : find 1 (dispatch (status "a") one_subscriber).deliveries ≡ (
    if is_addressed 1 (status "a") one_subscriber
    then on_found (send (status "a")) (find 1 one_subscriber.deliveries)
    else find 1 one_subscriber.deliveries)
find-dispatch_example = find-dispatch (status "a") one_subscriber 1 one_subscriber-IsWellFormed

close-steps_example :
    (subscribe "system" "" "t" (user 0 1) (steps program (close one_subscriber))
      ≡ (some (refusal "system"), steps program (close one_subscriber)))
    × ((publish none (status "c") (steps program (close one_subscriber))).1.deliveries
        ≡ (steps program (close one_subscriber)).deliveries)
close-steps_example =
    close-steps one_subscriber program "system" "" "t" (user 0 1) none (status "c") refl
