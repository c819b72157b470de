-- ===== src/EventBus/Bus.antt =====
-- core/eventbus/eventbus.go: the bus, publishing and dispatching.
--
-- A subscription's `d` is a pointer to its delivery: here the subscription's id, under which the
-- bus's `deliveries` keep every delivery ever started, a stopped one too, since it drains its queue.
-- Every operation holds the bus's lock, so a run of the program is a series of operations and of
-- steps of the delivery goroutines. What a handler does is not modelled, but that it is
-- called; nor is the call on a nil bus.
use Prim.Native.String.{◌++◌ as str_append}
use text.Mathlib.Text.{starts_with}
use gapi.Prelude.{
  ℕ, ◌+◌, ◌%◌, ◌^◌, String, Bool, true, false, not, ◌||◌, List, [], ◌∷◌, ◌++◌, Option, none, some,
  if◌then◌else◌, ◌==◌, same,
}
use gapi.Prelude.Maps.{SliceMap, get, put, delete}
use gapi.Prelude.Text.{is_blank, trim_prefix}
use gapi.EventBus.Delivery.{Event, Handler, Delivery, new_delivery, send, stop}

pub record SubEntry {ℓ} (T : Type ℓ) : Type ℓ where
  pub id : ℕ
  pub entry_fn : Handler T

pub record EventBus {ℓ} (T : Type ℓ) : Type ℓ where
  pub subs : SliceMap (SubEntry T)
  pub prefix_subs : SliceMap (SubEntry T)
  pub next_sub_id : ℕ
  pub is_closed : Bool
  pub deliveries : List (Delivery T)

pub data BusError : Type 0 where
  invalid_scope empty_topic bus_closed no_peer transport_failed : BusError

-- `PublishRemote` of the transport, with its error.
abbrev pub Transport {ℓ} : Type ℓ → Type ℓ
Transport T = Option (Event T → Option BusError)

unfoldable pub valid_scope : String → Bool
valid_scope scope = same scope "system" || same scope "user" || same scope "admin"

unfoldable pub full_key : String → String → String → String
full_key scope namespace topic = str_append scope (
    str_append "/"
      (str_append (if same namespace "" then "default" else namespace) (str_append "/" topic)))

-- The key that a subscription to a prefix is kept under.
unfoldable pub match_key : String → String
match_key k = str_append "__MATCH:" k

-- The transport's error first.
unfoldable pub first_error : Option BusError → Option BusError → Option BusError
first_error (some terr) err = some terr
first_error none err = err

module _ {ℓ} {T : Type ℓ} where
  unfoldable pub new_event_bus : EventBus T
  new_event_bus = record {
    subs = [];
    prefix_subs = [];
    next_sub_id = 0;
    is_closed = false;
    deliveries = [];
  }

  unfoldable pub validate_event : Event T → Option BusError
  validate_event e =
      if not (valid_scope e.scope)
      then some invalid_scope
      else if is_blank e.topic
      then some empty_topic
      else none

  -- The delivery of one subscription, changed.
  unfoldable pub on_delivery : ℕ → (Delivery T → Delivery T) → List (Delivery T) → List (Delivery T)
  on_delivery i f [] = []
  on_delivery i f (d ∷ ds) = (if d.sub_id == i then f d else d) ∷ on_delivery i f ds

  -- For each entry of a list in its order.
  unfoldable pub on_entries :
      (Delivery T → Delivery T) → List (SubEntry T) → List (Delivery T) → List (Delivery T)
  unfolding on_delivery
  on_entries f [] ds = ds
  on_entries f (s ∷ ss) ds = on_entries f ss (on_delivery s.id f ds)

  -- For each entry of a map.
  unfoldable pub on_map :
      (Delivery T → Delivery T) → SliceMap (SubEntry T) → List (Delivery T) → List (Delivery T)
  unfolding on_entries
  on_map f [] ds = ds
  on_map f ((k, ss) ∷ m) ds = on_map f m (on_entries f ss ds)

  -- `Close`.
  unfoldable pub close_open : EventBus T → EventBus T
  unfolding on_map
  close_open b = record b {
    is_closed = true;
    deliveries = on_map stop b.prefix_subs (on_map stop b.subs b.deliveries);
    subs = [];
    prefix_subs = [];
  }

  unfoldable pub close : EventBus T → EventBus T
  unfolding close_open
  close b = if b.is_closed then b else close_open b

  -- The map with the entry added, as `addSubLocked` does; the id is the bus's next.
  unfoldable pub next_id : EventBus T → ℕ
  next_id b = (b.next_sub_id + 1) % 2 ^ 64

  unfoldable pub add_entry : String → ℕ → Handler T → SliceMap (SubEntry T) → SliceMap (SubEntry T)
  add_entry k i h m = put k (get k m ++ record { id = i; entry_fn = h } ∷ []) m

  unfoldable pub add_sub : String → Handler T → EventBus T → EventBus T
  add_sub k h b =
      let i = next_id b in
      record b {
        next_sub_id = i;
        subs = add_entry k i h b.subs;
        deliveries = b.deliveries ++ new_delivery i h ∷ [];
      }

  unfoldable pub add_prefix_sub : String → Handler T → EventBus T → EventBus T
  add_prefix_sub k h b =
      let i = next_id b in
      record b {
        next_sub_id = i;
        prefix_subs = add_entry k i h b.prefix_subs;
        deliveries = b.deliveries ++ new_delivery i h ∷ [];
      }

  -- The first entry that passes the test is cut out, and named.
  unfoldable pub cut : (SubEntry T → Bool) → List (SubEntry T) → List (SubEntry T)
  cut p [] = []
  cut p (s ∷ ss) = if p s then ss else s ∷ cut p ss

  unfoldable pub first : (SubEntry T → Bool) → List (SubEntry T) → Option ℕ
  first p [] = none
  first p (s ∷ ss) = if p s then some s.id else first p ss

  -- `delete` where nothing is left.
  unfoldable pub put_or_delete :
      String → List (SubEntry T) → SliceMap (SubEntry T) → SliceMap (SubEntry T)
  put_or_delete k [] m = delete k m
  put_or_delete k (s ∷ ss) m = put k (s ∷ ss) m

  unfoldable pub stop_first : Option ℕ → List (Delivery T) → List (Delivery T)
  unfolding on_delivery
  stop_first none ds = ds
  stop_first (some i) ds = on_delivery i stop ds

  -- The removal that all four ways of unsubscribing share.
  unfoldable pub remove_from : (SubEntry T → Bool) → String → EventBus T → EventBus T
  unfolding stop_first
  remove_from p k b = record b {
    subs = put_or_delete k (cut p (get k b.subs)) b.subs;
    deliveries = stop_first (first p (get k b.subs)) b.deliveries;
  }

  unfoldable pub remove_prefix_from : (SubEntry T → Bool) → String → EventBus T → EventBus T
  unfolding stop_first
  remove_prefix_from p k b = record b {
    prefix_subs = put_or_delete k (cut p (get k b.prefix_subs)) b.prefix_subs;
    deliveries = stop_first (first p (get k b.prefix_subs)) b.deliveries;
  }

  unfoldable pub remove_sub_by_id : String → ℕ → EventBus T → EventBus T
  unfolding remove_from
  remove_sub_by_id k i = remove_from (λ s. s.id == i) k

  unfoldable pub remove_prefix_sub_by_id : String → ℕ → EventBus T → EventBus T
  unfolding remove_prefix_from
  remove_prefix_sub_by_id k i = remove_prefix_from (λ s. s.id == i) k

  -- The prefix subscriptions whose prefix the key has.
  unfoldable pub on_matching :
      (Delivery T → Delivery T)
      → String
      → SliceMap (SubEntry T)
      → List (Delivery T)
      → List (Delivery T)
  unfolding on_entries
  on_matching f k [] ds = ds
  on_matching f k ((key, ss) ∷ m) ds =
      on_matching f k m
        (if starts_with k (trim_prefix key "__MATCH:") then on_entries f ss ds else ds)

  unfoldable pub dispatch : Event T → EventBus T → EventBus T
  unfolding on_entries on_matching
  dispatch e b =
      let k = full_key e.scope e.namespace e.topic in
      record b {
        deliveries =
            on_matching (send e) k b.prefix_subs (on_entries (send e) (get k b.subs) b.deliveries);
      }

  -- `publish`: the transport's error and the caller's, apart.
  unfoldable pub publish_valid :
      Transport T → Event T → EventBus T → (Option BusError × Option BusError) × EventBus T
  publish_valid none e b = ((none, none), dispatch e b)
  publish_valid (some publish_remote) e b = ((publish_remote e, none), dispatch e b)

  unfoldable pub publish_checked :
      Option BusError
      → Transport T
      → Event T
      → EventBus T
      → (Option BusError × Option BusError) × EventBus T
  unfolding publish_valid
  publish_checked (some err) transport e b = ((none, some err), b)
  publish_checked none transport e b = publish_valid transport e b

  unfoldable pub publish_both :
      Transport T → Event T → EventBus T → (Option BusError × Option BusError) × EventBus T
  unfolding publish_checked
  publish_both transport e b = publish_checked (validate_event e) transport e b

  unfoldable pub publish : Transport T → Event T → EventBus T → Option BusError × EventBus T
  unfolding publish_both
  publish transport e b = let ((terr, err), after) = publish_both transport e b in (err, after)

  unfoldable pub publish_request : Transport T → Event T → EventBus T → Option BusError × EventBus T
  unfolding publish_both first_error
  publish_request transport e b =
      let ((terr, err), after) = publish_both transport e b in (first_error terr err, after)

  -- What `NewEventBus` has the transport call for an event of another process.
  unfoldable pub remote_checked : Option BusError → Event T → EventBus T → EventBus T
  remote_checked (some err) e b = b
  remote_checked none e b = dispatch e b

  unfoldable pub on_remote_event : Event T → EventBus T → EventBus T
  unfolding remote_checked
  on_remote_event e b = remote_checked (validate_event e) e b
