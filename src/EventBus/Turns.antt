-- ===== src/EventBus/Turns.antt =====
-- Publishing, delivering and closing keep the bus well formed.
use gapi.Prelude.{
  ℕ, ◌≡◌, refl, ◌∙◌, ap, String, Bool, true, false, List, [], ◌∷◌, Option, none, some, ◌==◌, arith,
  if◌then◌else◌, Bool-cases, inl, inr,
}
use gapi.Prelude.Maps.{SliceMap}
use gapi.EventBus.Delivery.{Event, Delivery, stop, receive}
use gapi.EventBus.Bus.{
  publish_checked, publish_valid, remote_checked, close_open, BusError, EventBus, SubEntry,
  Transport, close, dispatch, on_delivery, on_entries, on_map, remove_sub_by_id,
}
use gapi.EventBus.Subscribe.{deliver_next, deliver_from, deliver, find, forget, invoke, react}
use gapi.EventBus.Identity.{
  IsWellFormed, all_below, all_below-on_delivery, dispatch-Keeps, held_in, is_open,
}
use gapi.EventBus.Joining.{IsNext, remove_from-IsNext}

module _ {ℓ} {T : Type ℓ} where
  pub same-IsNext : (b : EventBus T) → IsWellFormed b → IsNext b b
  same-IsNext b wf = (wf, omega arith)

  pub dispatch-IsNext : (e : Event T) (b : EventBus T) → IsWellFormed b → IsNext b (dispatch e b)
  unfolding dispatch
  dispatch-IsNext e b (below, one) = (
    (
      (dispatch-Keeps e b 0 b.next_sub_id).1 ∙ below,
      λ i. ground (arith, one i, (dispatch-Keeps e b i 0).0),
    ),
    omega arith,
  )

  pub publish-IsNext :
      (o : Option BusError) (transport : Transport T) (e : Event T) (b : EventBus T)
      → IsWellFormed b
      → IsNext b (publish_checked o transport e b).1
  unfolding publish_checked publish_valid
  publish-IsNext (some err) transport e b wf = same-IsNext b wf
  publish-IsNext none none e b wf = dispatch-IsNext e b wf
  publish-IsNext none (some publish_remote) e b wf = dispatch-IsNext e b wf

  pub remote-IsNext :
      (o : Option BusError) (e : Event T) (b : EventBus T)
      → IsWellFormed b
      → IsNext b (remote_checked o e b)
  unfolding remote_checked
  remote-IsNext (some err) e b wf = same-IsNext b wf
  remote-IsNext none e b wf = dispatch-IsNext e b wf

  pub stop-all_below :
      (m : ℕ) (pm : SliceMap (SubEntry T)) (ds : List (Delivery T))
      → all_below m (on_map stop pm ds) ≡ all_below m ds
  unfolding on_map stop
  stop-all_below m [] ds = refl
  stop-all_below m ((k, ss) ∷ pm) ds = stop-all_below m pm (on_entries stop ss ds) ∙ stopped ss ds
    where
      stopped :
          (ss : List (SubEntry T)) (ds : List (Delivery T))
          → all_below m (on_entries stop ss ds) ≡ all_below m ds
      stopped [] ds = refl
      stopped (s ∷ ss) ds =
          stopped ss (on_delivery s.id stop ds) ∙ all_below-on_delivery stop s.id m ds (λ d e. e)

  pub close_open-IsNext : (b : EventBus T) → IsWellFormed b → IsNext b (close_open b)
  unfolding close_open held_in
  close_open-IsNext b (below, one) = (
    (
      stop-all_below b.next_sub_id b.prefix_subs (on_map stop b.subs b.deliveries)
          ∙ stop-all_below b.next_sub_id b.subs b.deliveries
          ∙ below,
      λ i. omega arith,
    ),
    omega arith,
  )

  pub close-IsNext : (b : EventBus T) → IsWellFormed b → IsNext b (close b)
  unfolding close
  close-IsNext b wf = by b.is_closed
    where
      by : (shut : Bool) → IsNext b (if shut then b else close_open b)
      by true = same-IsNext b wf
      by false = close_open-IsNext b wf

  -- One delivery, replaced by one of the same id whose queue is open or not as before.
  pub id_or_zero : Option (Delivery T) → ℕ
  id_or_zero none = 0
  id_or_zero (some d) = d.sub_id

  pub is_shut : Option (Delivery T) → Bool
  is_shut none = false
  is_shut (some d) = d.closed

  pub find-eq :
      (i : ℕ) (ds : List (Delivery T)) (d : Delivery T) → find i ds ≡ some d → d.sub_id ≡ i
  unfolding find id_or_zero
  find-eq i [] d h = cc
  find-eq i (d' ∷ ds) d h = elim (Bool-cases (d'.sub_id == i)) [
    | inl here ↦ ground (arith, here, ap id_or_zero h)
    | inr later ↦ find-eq i ds d (ground (arith, later))
  ]

  pub is_open-replaced_other :
      (i j : ℕ) (ds : List (Delivery T)) (d' : Delivery T)
      → d'.sub_id ≡ i
      → (i == j) ≡ false
      → is_open j (on_delivery i (λ _. d') ds) ≡ is_open j ds
  unfolding is_open on_delivery
  is_open-replaced_other i j [] d' e other = refl
  is_open-replaced_other i j (d ∷ ds) d' e other =
      ground (arith, is_open-replaced_other i j ds d' e other)

  pub is_open-replaced :
      (i j : ℕ) (ds : List (Delivery T)) (d d' : Delivery T)
      → find i ds ≡ some d
      → d'.sub_id ≡ i
      → d'.closed ≡ d.closed
      → is_open j (on_delivery i (λ _. d') ds) ≡ is_open j ds
  unfolding find is_open on_delivery is_shut
  is_open-replaced i j [] d d' h e c = refl
  is_open-replaced i j (d0 ∷ ds) d d' h e c = elim (Bool-cases (d0.sub_id == i)) [
    | inl here ↦ ground (arith, here, ap is_shut h, is_open-replaced_other i j ds d' e)
    | inr later ↦ ground (arith, later, is_open-replaced i j ds d d' (ground (arith, later)) e c)
  ]

  pub forget-IsNext :
      (i : ℕ) (o : Option String) (b : EventBus T) → IsWellFormed b → IsNext b (forget i o b)
  unfolding forget remove_sub_by_id
  forget-IsNext i none b wf = same-IsNext b wf
  forget-IsNext i (some key) b wf = remove_from-IsNext (λ s. s.id == i) key b wf

  pub react-IsNext :
      (i : ℕ) (e : Event T) (d rest : Delivery T) (b : EventBus T)
      → IsWellFormed b
      → find i b.deliveries ≡ some d
      → rest.sub_id ≡ d.sub_id
      → rest.closed ≡ d.closed
      → IsNext b (react i e rest b).1
  unfolding react
  react-IsNext i e d rest b (below, one) found ids shut =
      let r = invoke rest.fn rest.fired e in
      let next : Delivery T = record rest { fired = r.fired_after } in
      let id = ids ∙ find-eq i b.deliveries d found in
      forget-IsNext i r.removes (record b { deliveries = on_delivery i (λ _. next) b.deliveries })
        (
          all_below-on_delivery (λ _. next) i b.next_sub_id b.deliveries (λ _ _. id) ∙ below,
          λ j. ground (arith, one j, is_open-replaced i j b.deliveries d next found id shut),
        )

  pub deliver-IsNext : (i : ℕ) (b : EventBus T) → IsWellFormed b → IsNext b (deliver i b).1
  unfolding deliver deliver_from deliver_next receive
  deliver-IsNext i b wf = from (find i b.deliveries) refl
    where
      turn_of :
          (d : Delivery T) (q : List (Event T))
          → find i b.deliveries ≡ some (record d { q = q })
          → IsNext b (deliver_next i (receive (record d { q = q })) b).1
      turn_of d [] found = same-IsNext b wf
      turn_of d (e ∷ es) found =
          react-IsNext i e (record d { q = e ∷ es }) (record d { q = es }) b wf found refl refl

      from : (o : Option (Delivery T)) → find i b.deliveries ≡ o → IsNext b (deliver_from i o b).1
      from none found = same-IsNext b wf
      from (some d) found = turn_of d d.q found
