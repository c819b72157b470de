-- ===== src/EventBus/Closed.antt =====
-- A closed bus stays closed: it takes no subscription and delivers no new event.
use mathlib.Core.Path.{subst}
use gapi.Prelude.{
  ◌==◌, ℕ, ◌≡◌, refl, sym, ◌∙◌, ap, String, Bool, true, false, List, [], ◌∷◌, Option, none, some,
  if◌then◌else◌, not,
}
use gapi.Prelude.Maps.{get, delete}
use gapi.EventBus.Delivery.{Event, Handler, Delivery, receive, send}
use gapi.EventBus.Bus.{
  EventBus, BusError, SubEntry, bus_closed, invalid_scope, Transport, valid_scope, close,
  close_open, publish, publish_both, publish_request, first_error, publish_checked, publish_valid,
  dispatch, on_entries, on_matching, validate_event, remove_from, remove_prefix_from, put_or_delete,
  cut, on_remote_event, remote_checked, remove_sub_by_id, remove_prefix_sub_by_id, full_key,
}
use gapi.EventBus.Subscribe.{
  subscribe, subscribe_prefix, subscribe_once, subscribe_correlated, subscribe_prefix_typed,
  wait_begin, wait_finish, context_ended, unsubscribe, unsubscribe_prefix, refuses, guarded,
  deliver, deliver_from, deliver_next, react, forget, invoke, find,
}
use gapi.EventBus.Steps.{
  Op, subscribes, subscribes_prefix, unsubscribes, unsubscribes_prefix, subscribes_once,
  subscribes_correlated, subscribes_typed, waits, wait_finishes, context_ends, publishes,
  remote_event, delivers, closes, step, steps,
}

abbrev pub refusal : String → BusError
refusal scope = if valid_scope scope then bus_closed else invalid_scope

first_error-none : (o : Option BusError) → first_error o none ≡ o
unfolding first_error
first_error-none none = refl
first_error-none (some err) = refl

module _ {ℓ} {T : Type ℓ} where
  abbrev pub IsShut : EventBus T → Type ℓ
  IsShut b = (b.is_closed ≡ true) × (b.subs ≡ []) × (b.prefix_subs ≡ [])

  -- What the transport answers, if there is one.
  abbrev pub sent_with : Transport T → Event T → Option BusError
  sent_with none e = none
  sent_with (some publish_remote) e = publish_remote e

  -- Every subscription is refused.
  guarded-closed :
      (scope : String) (b c : EventBus T)
      → b.is_closed ≡ true
      → guarded (refuses scope b) b c ≡ (some (refusal scope), b)
  unfolding guarded refuses
  guarded-closed scope b c shut = by (valid_scope scope) b.is_closed shut
    where
      by :
          (v s : Bool)
          → s ≡ true
          → guarded (if not v then some invalid_scope else if s then some bus_closed else none) b c
            ≡ (some (if v then bus_closed else invalid_scope), b)
      by true true h = refl
      by true false h = absurd cc
      by false s h = refl

  no_entries : (p : SubEntry T → Bool) (k : String) → put_or_delete k (cut p (get k [])) [] ≡ []
  unfolding put_or_delete cut get delete
  no_entries p k = refl

  remove_from-IsShut :
      (p : SubEntry T → Bool) (k : String) (b : EventBus T) → IsShut b → IsShut (remove_from p k b)
  unfolding remove_from
  remove_from-IsShut p k b (shut, none_exact, none_prefix) =
      (shut, ap (λ m. put_or_delete k (cut p (get k m)) m) none_exact ∙ no_entries p k, none_prefix)

  remove_prefix_from-IsShut :
      (p : SubEntry T → Bool) (k : String) (b : EventBus T)
      → IsShut b
      → IsShut (remove_prefix_from p k b)
  unfolding remove_prefix_from
  remove_prefix_from-IsShut p k b (shut, none_exact, none_prefix) =
      (shut, none_exact, ap (λ m. put_or_delete k (cut p (get k m)) m) none_prefix ∙ no_entries p k)

  dispatch-deliveries :
      (e : Event T) (b : EventBus T) → IsShut b → (dispatch e b).deliveries ≡ b.deliveries
  unfolding dispatch on_entries on_matching get
  dispatch-deliveries e b (shut, none_exact, none_prefix) =
      let k = full_key e.scope e.namespace e.topic in
      ap (λ m. on_matching (send e) k m (on_entries (send e) (get k b.subs) b.deliveries))
        none_prefix
      ∙ ap (λ m. on_entries (send e) (get k m) b.deliveries) none_exact

  guarded-IsShut :
      (scope : String) (b c : EventBus T) → IsShut b → IsShut (guarded (refuses scope b) b c).1
  guarded-IsShut scope b c shut =
      subst IsShut (sym (ap (λ r. r.1) (guarded-closed scope b c shut.0))) shut

  publish-IsShut :
      (o : Option BusError) (transport : Transport T) (e : Event T) (b : EventBus T)
      → IsShut b
      → (IsShut (publish_checked o transport e b).1)
        × ((publish_checked o transport e b).1.deliveries ≡ b.deliveries)
  unfolding publish_checked publish_valid dispatch
  publish-IsShut (some err) transport e b shut = (shut, refl)
  publish-IsShut none none e b shut = (shut, dispatch-deliveries e b shut)
  publish-IsShut none (some publish_remote) e b shut = (shut, dispatch-deliveries e b shut)

  remote-IsShut :
      (o : Option BusError) (e : Event T) (b : EventBus T)
      → IsShut b
      → IsShut (remote_checked o e b)
  unfolding remote_checked dispatch
  remote-IsShut (some err) e b shut = shut
  remote-IsShut none e b shut = shut

  close-IsShut : (b : EventBus T) → IsShut b → IsShut (close b)
  unfolding close close_open
  close-IsShut b shut = by b.is_closed
    where
      by : (c : Bool) → IsShut (if c then b else close_open b)
      by true = shut
      by false = (refl, refl, refl)

  deliver-IsShut : (i : ℕ) (b : EventBus T) → IsShut b → IsShut (deliver i b).1
  unfolding deliver deliver_from deliver_next react forget remove_sub_by_id
  deliver-IsShut i b shut = from (find i b.deliveries)
    where
      forgets : (o : Option String) (c : EventBus T) → IsShut c → IsShut (forget i o c)
      forgets none c h = h
      forgets (some key) c h = remove_from-IsShut (λ s. s.id == i) key c h

      turn_of : (o : Option (Event T × Delivery T)) → IsShut (deliver_next i o b).1
      turn_of none = shut
      turn_of (some (e, rest)) = forgets (invoke rest.fn rest.fired e).removes _ shut

      from : (o : Option (Delivery T)) → IsShut (deliver_from i o b).1
      from none = shut
      from (some d) = turn_of (receive d)

  step-IsShut : (op : Op T) (b : EventBus T) → IsShut b → IsShut (step op b)
  unfolding step subscribe subscribe_prefix subscribe_once subscribe_correlated
      subscribe_prefix_typed wait_begin wait_finish context_ended unsubscribe unsubscribe_prefix
      remove_sub_by_id remove_prefix_sub_by_id publish publish_both on_remote_event
  step-IsShut (subscribes scope _ _ _) b shut = guarded-IsShut scope b _ shut
  step-IsShut (subscribes_prefix scope _ _ _) b shut = guarded-IsShut scope b _ shut
  step-IsShut (unsubscribes _ _ _ _) b shut = remove_from-IsShut _ _ b shut
  step-IsShut (unsubscribes_prefix _ _ _ _) b shut = remove_prefix_from-IsShut _ _ b shut
  step-IsShut (subscribes_once scope _ _ _) b shut = guarded-IsShut scope b _ shut
  step-IsShut (subscribes_correlated scope _ _ _ _) b shut = guarded-IsShut scope b _ shut
  step-IsShut (subscribes_typed scope _ _ _ _) b shut = guarded-IsShut scope b _ shut
  step-IsShut (waits scope _ _) b shut = guarded-IsShut scope b _ shut
  step-IsShut (wait_finishes _ _ _ _ _) b shut = remove_from-IsShut _ _ b shut
  step-IsShut (context_ends _ _ _ _) b shut = remove_prefix_from-IsShut _ _ b shut
  step-IsShut (publishes transport e) b shut =
      (publish-IsShut (validate_event e) transport e b shut).0
  step-IsShut (remote_event e) b shut = remote-IsShut (validate_event e) e b shut
  step-IsShut (delivers i) b shut = deliver-IsShut i b shut
  step-IsShut closes b shut = close-IsShut b shut

  steps-IsShut : (ops : List (Op T)) (b : EventBus T) → IsShut b → IsShut (steps ops b)
  unfolding steps
  steps-IsShut [] b shut = shut
  steps-IsShut (op ∷ ops) b shut = steps-IsShut ops (step op b) (step-IsShut op b shut)

  close-open_IsShut : (b : EventBus T) → b.is_closed ≡ false → IsShut (close b)
  unfolding close close_open
  close-open_IsShut b opened = by b.is_closed opened
    where
      by : (c : Bool) → c ≡ false → IsShut (if c then b else close_open b)
      by true h = absurd cc
      by false h = (refl, refl, refl)

  -- Once an open bus has been closed, whatever is done with it afterwards: it takes no subscription,
  -- with the error of the closed bus for a valid scope, and a publish queues nothing for anybody.
  pub close-steps :
      (b : EventBus T) (ops : List (Op T)) (scope namespace topic : String) (h : Handler T)
      (transport : Transport T) (e : Event T)
      → b.is_closed ≡ false
      → (subscribe scope namespace topic h (steps ops (close b))
          ≡ (some (refusal scope), steps ops (close b)))
        × ((publish transport e (steps ops (close b))).1.deliveries
            ≡ (steps ops (close b)).deliveries)
  unfolding subscribe publish publish_both
  close-steps b ops scope namespace topic h transport e opened =
      let shut = steps-IsShut ops (close b) (close-open_IsShut b opened) in
      (
        guarded-closed scope (steps ops (close b)) _ shut.0,
        (publish-IsShut (validate_event e) transport e (steps ops (close b)) shut).1,
      )

  -- `Publish` and `PublishRequest` do the same to the bus. `Publish` answers only whether the event
  -- is valid; for a valid event `PublishRequest` answers what the transport answers.
  pub publish-publish_request :
      (transport : Transport T) (e : Event T) (b : EventBus T)
      → ((publish transport e b).1 ≡ (publish_request transport e b).1)
        × ((publish transport e b).0 ≡ validate_event e)
        × ((publish_request transport e b).0
            ≡ first_error (validate_event e) (sent_with transport e))
  unfolding publish publish_request publish_both first_error
  publish-publish_request transport e b = by (validate_event e) transport
    where
      by :
          (o : Option BusError) (t : Transport T)
          → ((publish_checked o t e b).1 ≡ (publish_checked o t e b).1)
            × ((publish_checked o t e b).0.1 ≡ o)
            × (first_error (publish_checked o t e b).0.0 (publish_checked o t e b).0.1
                ≡ first_error o (sent_with t e))
      by (some err) t = (refl, refl, refl)
      by none none = (refl, refl, refl)
      by none (some f) = (refl, refl, first_error-none (f e))
