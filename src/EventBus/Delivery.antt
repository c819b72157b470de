-- ===== src/EventBus/Delivery.antt =====
-- core/eventbus/delivery.go: one subscription's queue and the goroutine that empties it.
use gapi.Prelude.{
  ℕ, ◌+◌, ◌%◌, ◌^◌, String, Bool, true, false, List, [], ◌∷◌, ◌++◌, Option, none, some, ltb, length,
  if◌then◌else◌,
}

pub record Event {ℓ} (T : Type ℓ) : Type ℓ where
  pub event_id : String
  pub scope : String
  pub namespace : String
  pub topic : String
  pub payload : T
  pub source : String
  pub tags : List String

-- `user` is a function of the bus's client; the others are the closures that `SubscribeOnce`,
-- `SubscribeCorrelated`, `SubscribePrefixTyped` and `WaitForTopic` build, with what they hold: the
-- client's closure, and the key under which a one-shot wrapper removes its own subscription.
pub data Handler {ℓ} (T : Type ℓ) : Type ℓ where
  user : (code closure : ℕ) → Handler T
  once : (key : String) (closure : ℕ) → Handler T
  correlated : (key corr_id : String) (closure : ℕ) → Handler T
  typed : (T → Bool) → (closure : ℕ) → Handler T
  waiter : Handler T

-- What `fmt.Sprintf("%p", fn)` tells apart: the code, not the closure.
unfoldable pub code_pointer {ℓ} : {T : Type ℓ} → Handler T → ℕ
code_pointer (user code closure) = code + 4
code_pointer (once key closure) = 0
code_pointer (correlated key corr_id closure) = 1
code_pointer (typed accepts closure) = 2
code_pointer waiter = 3

abbrev pub delivery_queue_depth : ℕ
delivery_queue_depth = 256

-- `fired` is the wrapper's `sync.Once`; `closed` is the queue's channel, closed; `panicked` says that
-- something was sent on it then, which ends the Go program.
pub record Delivery {ℓ} (T : Type ℓ) : Type ℓ where
  pub sub_id : ℕ
  pub fn : Handler T
  pub q : List (Event T)
  pub drops : ℕ
  pub closed : Bool
  pub panicked : Bool
  pub fired : Bool

unfoldable pub new_delivery {ℓ} : {T : Type ℓ} → ℕ → Handler T → Delivery T
new_delivery id h = record {
  sub_id = id;
  fn = h;
  q = [];
  drops = 0;
  closed = false;
  panicked = false;
  fired = false;
}

-- `send`: never blocks; a full queue drops the event and counts it. A send on a closed channel
-- panics, also in a `select` with a default.
unfoldable pub send {ℓ} : {T : Type ℓ} → Event T → Delivery T → Delivery T
send e d =
    if d.closed
    then record d { panicked = true }
    else if ltb (length d.q) delivery_queue_depth
    then record d { q = d.q ++ e ∷ [] }
    else record d { drops = (d.drops + 1) % 2 ^ 64 }

-- `stop` closes the channel; what is queued is still delivered.
unfoldable pub stop {ℓ} : {T : Type ℓ} → Delivery T → Delivery T
stop d = record d { closed = true }

-- The goroutine's next event, and the delivery without it; `none` when there is nothing queued.
unfoldable pub receive {ℓ} : {T : Type ℓ} → Delivery T → Option (Event T × Delivery T)
receive d = elim d.q [ [] ↦ none | e ∷ rest ↦ some (e, record d { q = rest }) ]
