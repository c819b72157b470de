-- ===== src/EventBus/Steps.antt =====
-- Every series of operations of the bus keeps it well formed.
use gapi.Prelude.{
  ℕ, ◌+◌, ◌^◌, ◌≤◌, ◌<◌, refl, String, Bool, List, [], ◌∷◌, length, arith, if◌then◌else◌,
}
use gapi.EventBus.Delivery.{Event, Handler}
use gapi.EventBus.Bus.{
  EventBus, Transport, close, new_event_bus, on_remote_event, publish, publish_both,
  remove_prefix_sub_by_id, remove_sub_by_id, validate_event,
}
use gapi.EventBus.Subscribe.{
  WaitEnd, context_ended, deliver, subscribe, subscribe_correlated, subscribe_once,
  subscribe_prefix, subscribe_prefix_typed, unsubscribe, unsubscribe_prefix, wait_begin,
  wait_finish,
}
use gapi.EventBus.Identity.{IsWellFormed, all_below, held_in, is_open}
use gapi.EventBus.Joining.{
  HasIds, IsNext, add_sub-IsNext, add_prefix_sub-IsNext, guarded-IsNext, remove_from-IsNext,
  remove_prefix_from-IsNext,
}
use gapi.EventBus.Turns.{publish-IsNext, remote-IsNext, close-IsNext, deliver-IsNext}

-- The operations of the bus, and the turns of its delivery goroutines.
pub data Op {ℓ} (T : Type ℓ) : Type ℓ where
  subscribes subscribes_prefix unsubscribes unsubscribes_prefix :
      (scope namespace topic : String) → Handler T → Op T
  subscribes_once : (scope namespace topic : String) (closure : ℕ) → Op T
  subscribes_correlated : (scope namespace topic corr_id : String) (closure : ℕ) → Op T
  subscribes_typed : (scope namespace topic : String) → (T → Bool) → (closure : ℕ) → Op T
  waits : (scope namespace topic : String) → Op T
  wait_finishes : (scope namespace topic : String) (id : ℕ) → WaitEnd → Op T
  context_ends : (scope namespace topic : String) (id : ℕ) → Op T
  publishes : Transport T → Event T → Op T
  remote_event : Event T → Op T
  delivers : (id : ℕ) → Op T
  closes : Op T

module _ {ℓ} {T : Type ℓ} where
  unfoldable pub step : Op T → EventBus T → EventBus T
  step (subscribes scope namespace topic h) b = (subscribe scope namespace topic h b).1
  step (subscribes_prefix scope namespace topic h) b =
      (subscribe_prefix scope namespace topic h b).1
  step (unsubscribes scope namespace topic h) b = unsubscribe scope namespace topic h b
  step (unsubscribes_prefix scope namespace topic h) b =
      unsubscribe_prefix scope namespace topic h b
  step (subscribes_once scope namespace topic c) b = (subscribe_once scope namespace topic c b).1
  step (subscribes_correlated scope namespace topic corr_id c) b =
      (subscribe_correlated scope namespace topic corr_id c b).1
  step (subscribes_typed scope namespace topic accepts c) b =
      (subscribe_prefix_typed scope namespace topic accepts c b).1
  step (waits scope namespace topic) b = (wait_begin scope namespace topic b).1
  step (wait_finishes scope namespace topic i ended) b =
      (wait_finish scope namespace topic i ended b).1
  step (context_ends scope namespace topic i) b = context_ended scope namespace topic i b
  step (publishes transport e) b = (publish transport e b).1
  step (remote_event e) b = on_remote_event e b
  step (delivers i) b = (deliver i b).1
  step closes b = close b

  unfoldable pub steps : List (Op T) → EventBus T → EventBus T
  unfolding step
  steps [] b = b
  steps (op ∷ ops) b = steps ops (step op b)

  step-IsNext : (op : Op T) (b : EventBus T) → HasIds b → IsWellFormed b → IsNext b (step op b)
  unfolding step subscribe subscribe_prefix subscribe_once subscribe_correlated
      subscribe_prefix_typed wait_begin wait_finish context_ended unsubscribe unsubscribe_prefix
      remove_sub_by_id remove_prefix_sub_by_id publish publish_both on_remote_event
  step-IsNext (subscribes scope namespace topic h) b room wf =
      guarded-IsNext _ b _ wf (add_sub-IsNext _ h b room wf)
  step-IsNext (subscribes_prefix scope namespace topic h) b room wf =
      guarded-IsNext _ b _ wf (add_prefix_sub-IsNext _ h b room wf)
  step-IsNext (unsubscribes scope namespace topic h) b room wf = remove_from-IsNext _ _ b wf
  step-IsNext (unsubscribes_prefix scope namespace topic h) b room wf =
      remove_prefix_from-IsNext _ _ b wf
  step-IsNext (subscribes_once scope namespace topic c) b room wf =
      guarded-IsNext _ b _ wf (add_sub-IsNext _ _ b room wf)
  step-IsNext (subscribes_correlated scope namespace topic corr_id c) b room wf =
      guarded-IsNext _ b _ wf (add_sub-IsNext _ _ b room wf)
  step-IsNext (subscribes_typed scope namespace topic accepts c) b room wf =
      guarded-IsNext _ b _ wf (add_prefix_sub-IsNext _ _ b room wf)
  step-IsNext (waits scope namespace topic) b room wf =
      guarded-IsNext _ b _ wf (add_sub-IsNext _ _ b room wf)
  step-IsNext (wait_finishes scope namespace topic i ended) b room wf = remove_from-IsNext _ _ b wf
  step-IsNext (context_ends scope namespace topic i) b room wf = remove_prefix_from-IsNext _ _ b wf
  step-IsNext (publishes transport e) b room wf = publish-IsNext (validate_event e) transport e b wf
  step-IsNext (remote_event e) b room wf = remote-IsNext (validate_event e) e b wf
  step-IsNext (delivers i) b room wf = deliver-IsNext i b wf
  step-IsNext closes b room wf = close-IsNext b wf

  -- Fewer than 2 ^ 64 operations on a well-formed bus keep it well formed.
  steps-IsWellFormed :
      (ops : List (Op T)) (b : EventBus T)
      → b.next_sub_id + length ops < 2 ^ 64
      → IsWellFormed b
      → IsWellFormed (steps ops b)
  unfolding steps
  steps-IsWellFormed [] b room wf = wf
  steps-IsWellFormed (op ∷ ops) b room wf =
      let (after, next) = step-IsNext op b (omega arith) wf in
      steps-IsWellFormed ops (step op b) (omega arith) after

  -- After fewer than 2 ^ 64 operations on a new bus, in any order, no two subscriptions that the bus
  -- holds have the same id, and each one's queue is open: `dispatch` sends on no closed channel, and
  -- a removal by id takes away one subscription at most.
  pub steps-held_in :
      (ops : List (Op T)) (i : ℕ)
      → length ops < 2 ^ 64
      → held_in i (steps ops new_event_bus).subs + held_in i (steps ops new_event_bus).prefix_subs
        ≤ (if is_open i (steps ops new_event_bus).deliveries then 1 else 0)
  unfolding new_event_bus all_below held_in
  steps-held_in ops i room =
      (steps-IsWellFormed ops new_event_bus (omega arith) (refl, λ i. omega arith)).1 i
