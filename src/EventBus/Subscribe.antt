-- ===== src/EventBus/Subscribe.antt =====
-- core/eventbus/subscribe.go and waitfor.go: joining and leaving the bus; and the step of a
-- delivery goroutine, which calls the subscription's handler.
use gapi.Prelude.{
  ℕ, String, Bool, true, false, not, List, [], ◌∷◌, Option, none, some, if◌then◌else◌, ◌==◌, same,
}
use gapi.EventBus.Delivery.{
  Event, Handler, user, once, correlated, typed, waiter, code_pointer, Delivery, receive,
}
use gapi.EventBus.Bus.{
  EventBus, BusError, invalid_scope, bus_closed, valid_scope, full_key, match_key, add_sub,
  add_prefix_sub, next_id, remove_from, remove_prefix_from, remove_sub_by_id,
  remove_prefix_sub_by_id, on_delivery,
}

-- One call of a client's closure.
pub record Call {ℓ} (T : Type ℓ) : Type ℓ where
  pub closure : ℕ
  pub event : Event T

-- What a handler does with an event: the closure that it calls, its `sync.Once` afterwards, and
-- whether it removes its subscription, with the key.
pub record Reaction : Type 0 where
  pub calls : Option ℕ
  pub fired_after : Bool
  pub removes : Option String

-- How the wait of `WaitForTopic` ends.
pub data WaitEnd : Type 0 where
  topic_fired context_done wait_timeout : WaitEnd

unfoldable pub fire_once : Bool → String → ℕ → Reaction
fire_once true key closure = record { calls = none; fired_after = true; removes = none }
fire_once false key closure = record {
  calls = some closure;
  fired_after = true;
  removes = some key;
}

module _ {ℓ} {T : Type ℓ} where
  -- The guards that every subscription starts with.
  unfoldable pub refuses : String → EventBus T → Option BusError
  refuses scope b =
      if not (valid_scope scope)
      then some invalid_scope
      else if b.is_closed
      then some bus_closed
      else none

  unfoldable pub guarded : Option BusError → EventBus T → EventBus T → Option BusError × EventBus T
  guarded (some err) before after = (some err, before)
  guarded none before after = (none, after)

  unfoldable pub subscribe :
      String → String → String → Handler T → EventBus T → Option BusError × EventBus T
  unfolding refuses guarded
  subscribe scope namespace topic h b =
      guarded (refuses scope b) b (add_sub (full_key scope namespace topic) h b)

  unfoldable pub subscribe_prefix :
      String → String → String → Handler T → EventBus T → Option BusError × EventBus T
  unfolding refuses guarded
  subscribe_prefix scope namespace prefix h b =
      guarded (refuses scope b) b (add_prefix_sub (match_key (full_key scope namespace prefix)) h b)

  unfoldable pub subscribe_once :
      String → String → String → ℕ → EventBus T → Option BusError × EventBus T
  unfolding refuses guarded
  subscribe_once scope namespace topic closure b =
      let k = full_key scope namespace topic in
      guarded (refuses scope b) b (add_sub k (once k closure) b)

  unfoldable pub subscribe_correlated :
      String → String → String → String → ℕ → EventBus T → Option BusError × EventBus T
  unfolding refuses guarded
  subscribe_correlated scope namespace topic corr_id closure b =
      let k = full_key scope namespace topic in
      guarded (refuses scope b) b (add_sub k (correlated k corr_id closure) b)

  -- By code pointer: the first handler of the same code.
  unfoldable pub unsubscribe : String → String → String → Handler T → EventBus T → EventBus T
  unsubscribe scope namespace topic target =
      remove_from (λ s. code_pointer s.entry_fn == code_pointer target)
        (full_key scope namespace topic)

  unfoldable pub unsubscribe_prefix : String → String → String → Handler T → EventBus T → EventBus T
  unsubscribe_prefix scope namespace prefix target =
      remove_prefix_from (λ s. code_pointer s.entry_fn == code_pointer target)
        (match_key (full_key scope namespace prefix))

  -- `SubscribePrefixWithContext`: with the id that the end of the context removes.
  unfoldable pub subscribe_prefix_with_context :
      String → String → String → Handler T → EventBus T → (Option BusError × ℕ) × EventBus T
  unfolding subscribe_prefix
  subscribe_prefix_with_context scope namespace prefix h b =
      let (err, after) = subscribe_prefix scope namespace prefix h b in ((err, next_id b), after)

  unfoldable pub context_ended : String → String → String → ℕ → EventBus T → EventBus T
  context_ended scope namespace prefix i =
      remove_prefix_sub_by_id (match_key (full_key scope namespace prefix)) i

  -- `accepts` says that a payload is there and decodes to the wanted type.
  unfoldable pub subscribe_prefix_typed :
      String → String → String → (T → Bool) → ℕ → EventBus T → Option BusError × EventBus T
  subscribe_prefix_typed scope namespace prefix accepts closure =
      subscribe_prefix scope namespace prefix (typed accepts closure)

  -- `WaitForTopic` up to its `select`, with the id of its subscription; and from there on.
  unfoldable pub wait_begin :
      String → String → String → EventBus T → (Option BusError × ℕ) × EventBus T
  unfolding subscribe
  wait_begin scope namespace topic b =
      let (err, after) = subscribe scope namespace topic waiter b in ((err, next_id b), after)

  unfoldable pub wait_finish :
      String → String → String → ℕ → WaitEnd → EventBus T → Option WaitEnd × EventBus T
  wait_finish scope namespace topic i ended b = (
    elim ended [
      | topic_fired ↦ none
      | context_done ↦ some context_done
      | wait_timeout ↦ some wait_timeout
    ],
    remove_sub_by_id (full_key scope namespace topic) i b,
  )

  -- What each kind of handler does.
  unfoldable pub invoke : Handler T → Bool → Event T → Reaction
  unfolding fire_once
  invoke (user code closure) fired e = record {
    calls = some closure;
    fired_after = fired;
    removes = none;
  }
  invoke (once key closure) fired e = fire_once fired key closure
  invoke (correlated key corr_id closure) fired e =
      if same e.event_id corr_id
      then fire_once fired key closure
      else record { calls = none; fired_after = fired; removes = none }
  invoke (typed accepts closure) fired e = record {
    calls = if accepts e.payload then some closure else none;
    fired_after = fired;
    removes = none;
  }
  invoke waiter fired e = record { calls = none; fired_after = true; removes = none }

  unfoldable pub find : ℕ → List (Delivery T) → Option (Delivery T)
  find i [] = none
  find i (d ∷ ds) = if d.sub_id == i then some d else find i ds

  unfoldable pub forget : ℕ → Option String → EventBus T → EventBus T
  forget i none b = b
  forget i (some key) b = remove_sub_by_id key i b

  unfoldable pub react : ℕ → Event T → Delivery T → EventBus T → Option (Call T) × EventBus T
  unfolding forget
  react i e d b =
      let r = invoke d.fn d.fired e in
      (
        elim r.calls [ none ↦ none | some c ↦ some (record { closure = c; event = e }) ],
        forget i r.removes (record b {
          deliveries = on_delivery i (λ _. record d { fired = r.fired_after }) b.deliveries;
        }),
      )

  -- One turn of the goroutine of the subscription `i`.
  unfoldable pub deliver_next :
      ℕ → Option (Event T × Delivery T) → EventBus T → Option (Call T) × EventBus T
  unfolding react
  deliver_next i none b = (none, b)
  deliver_next i (some (e, rest)) b = react i e rest b

  unfoldable pub deliver_from : ℕ → Option (Delivery T) → EventBus T → Option (Call T) × EventBus T
  unfolding deliver_next
  deliver_from i none b = (none, b)
  deliver_from i (some d) b = deliver_next i (receive d) b

  unfoldable pub deliver : ℕ → EventBus T → Option (Call T) × EventBus T
  unfolding deliver_from
  deliver i b = deliver_from i (find i b.deliveries) b
