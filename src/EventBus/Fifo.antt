-- ===== src/EventBus/Fifo.antt =====
-- One subscriber sees the events in the order in which they were sent, each at most once, and every
-- event that it does not see is counted.
use gapi.Prelude.{
  ℕ, ◌+◌, ◌%◌, ◌^◌, ◌≤◌, ◌<◌, ◌≡◌, refl, sym, ◌∙◌, ap, Bool, true, false, not, ◌&&◌, List, [], ◌∷◌,
  ◌++◌, none, some, ltb, length, length-append, Bool-cases, inl, inr, arith, if◌then◌else◌,
}
use mathlib.Core.List.{append_assoc, append-nil}
use gapi.EventBus.Delivery.{
  Event, Handler, Delivery, new_delivery, delivery_queue_depth, send, stop, receive,
}

-- What happens to a delivery: an event is sent, its goroutine takes one, it is stopped.
pub data Turn {ℓ} (T : Type ℓ) : Type ℓ where
  sent : Event T → Turn T
  taken stopped : Turn T

module _ {ℓ} {T : Type ℓ} where
  abbrev pub has_room : Delivery T → Bool
  has_room d = ltb (length d.q) delivery_queue_depth

  abbrev pub take_one : Delivery T → Delivery T
  take_one d = elim (receive d) [ none ↦ d | some (e, rest) ↦ rest ]

  abbrev pub head_of : List (Event T) → List (Event T)
  head_of [] = []
  head_of (e ∷ es) = e ∷ []

  unfoldable pub turn : Turn T → Delivery T → Delivery T
  turn (sent e) d = send e d
  turn taken d = take_one d
  turn stopped d = stop d

  unfoldable pub after : List (Turn T) → Delivery T → Delivery T
  unfolding turn
  after [] d = d
  after (t ∷ ts) d = after ts (turn t d)

  -- The events that the handler is called with.
  unfoldable pub handled : List (Turn T) → Delivery T → List (Event T)
  unfolding turn
  handled [] d = []
  handled (taken ∷ ts) d = head_of d.q ++ handled ts (take_one d)
  handled (sent e ∷ ts) d = handled ts (send e d)
  handled (stopped ∷ ts) d = handled ts (stop d)

  -- Nothing is sent once the delivery is stopped; `closed` says whether it is from the start. The
  -- bus's lock is there to see to it: a subscription is stopped as it is let go.
  unfoldable pub sends_open : Bool → List (Turn T) → Bool
  sends_open closed [] = true
  sends_open closed (sent e ∷ ts) = not closed && sends_open closed ts
  sends_open closed (taken ∷ ts) = sends_open closed ts
  sends_open closed (stopped ∷ ts) = sends_open true ts

  -- The events sent while there was room, and the number of the others.
  unfoldable pub accepted : List (Turn T) → Delivery T → List (Event T)
  unfolding turn
  accepted [] d = []
  accepted (sent e ∷ ts) d = (if has_room d then e ∷ [] else []) ++ accepted ts (send e d)
  accepted (taken ∷ ts) d = accepted ts (take_one d)
  accepted (stopped ∷ ts) d = accepted ts (stop d)

  unfoldable pub lost : List (Turn T) → Delivery T → ℕ
  unfolding turn
  lost [] d = 0
  lost (sent e ∷ ts) d = (if has_room d then 0 else 1) + lost ts (send e d)
  lost (taken ∷ ts) d = lost ts (take_one d)
  lost (stopped ∷ ts) d = lost ts (stop d)

  unfoldable pub sent_events : List (Turn T) → List (Event T)
  sent_events [] = []
  sent_events (sent e ∷ ts) = e ∷ sent_events ts
  sent_events (taken ∷ ts) = sent_events ts
  sent_events (stopped ∷ ts) = sent_events ts

  open_sent :
      (e : Event T) (ts : List (Turn T)) (d : Delivery T)
      → sends_open d.closed (sent e ∷ ts) ≡ true
      → (d.closed ≡ false) × (sends_open (send e d).closed ts ≡ true)
  unfolding sends_open send
  open_sent e ts d ok =
      let unclosed : d.closed ≡ false = ground arith in
      let same_closed : (send e d).closed ≡ d.closed = ground arith in
      (unclosed, ap (λ b. sends_open b ts) same_closed ∙ ground arith)

  open_taken :
      (ts : List (Turn T)) (d : Delivery T)
      → sends_open d.closed ts ≡ true
      → sends_open (take_one d).closed ts ≡ true
  unfolding receive
  open_taken ts d ok = on_queue d.q
    where
      on_queue : (q : List (Event T)) → sends_open (take_one (record d { q = q })).closed ts ≡ true
      on_queue [] = ok
      on_queue (e ∷ es) = ok

  q-send :
      (e : Event T) (d : Delivery T)
      → d.closed ≡ false
      → (send e d).q ≡ d.q ++ (if has_room d then e ∷ [] else [])
  unfolding send
  q-send e d unclosed = elim (Bool-cases (has_room d)) [
    | inl room ↦ rw (unclosed, room) refl
    | inr full ↦ rw (unclosed, full) (sym (append-nil d.q))
  ]

  q-take_one : (d : Delivery T) → head_of d.q ++ (take_one d).q ≡ d.q
  unfolding receive
  q-take_one d = on_queue d.q
    where
      on_queue : (q : List (Event T)) → head_of q ++ (take_one (record d { q = q })).q ≡ q
      on_queue [] = refl
      on_queue (e ∷ es) = refl

  -- What a subscriber was called with, followed by what is still queued, is what was queued at
  -- first followed by what was accepted, in the order in which it was sent.
  pub handled_lem :
      (ts : List (Turn T)) (d : Delivery T)
      → sends_open d.closed ts ≡ true
      → handled ts d ++ (after ts d).q ≡ d.q ++ accepted ts d
  unfolding handled after accepted turn stop sends_open
  handled_lem [] d ok = sym (append-nil d.q)
  handled_lem (sent e ∷ ts) d ok =
      let (unclosed, rest) = open_sent e ts d ok in
      handled_lem ts (send e d) rest
      ∙ ap (λ q. q ++ accepted ts (send e d)) (q-send e d unclosed)
      ∙ append_assoc d.q (if has_room d then e ∷ [] else []) (accepted ts (send e d))
  handled_lem (taken ∷ ts) d ok =
      append_assoc (head_of d.q) (handled ts (take_one d)) (after ts (take_one d)).q
      ∙ ap (λ es. head_of d.q ++ es) (handled_lem ts (take_one d) (open_taken ts d ok))
      ∙ sym (append_assoc (head_of d.q) (take_one d).q (accepted ts (take_one d)))
      ∙ ap (λ q. q ++ accepted ts (take_one d)) (q-take_one d)
  handled_lem (stopped ∷ ts) d ok = handled_lem ts (stop d) ok

  panicked-take_one : (d : Delivery T) → (take_one d).panicked ≡ d.panicked
  unfolding receive
  panicked-take_one d = on_queue d.q
    where
      on_queue : (q : List (Event T)) → (take_one (record d { q = q })).panicked ≡ d.panicked
      on_queue [] = refl
      on_queue (e ∷ es) = refl

  panicked-send :
      (e : Event T) (d : Delivery T) → d.closed ≡ false → (send e d).panicked ≡ d.panicked
  unfolding send
  panicked-send e d unclosed = ground arith

  panicked-after :
      (ts : List (Turn T)) (d : Delivery T)
      → sends_open d.closed ts ≡ true
      → (after ts d).panicked ≡ d.panicked
  unfolding after turn stop sends_open
  panicked-after [] d ok = refl
  panicked-after (sent e ∷ ts) d ok =
      let (unclosed, rest) = open_sent e ts d ok in
      panicked-after ts (send e d) rest ∙ panicked-send e d unclosed
  panicked-after (taken ∷ ts) d ok =
      panicked-after ts (take_one d) (open_taken ts d ok) ∙ panicked-take_one d
  panicked-after (stopped ∷ ts) d ok = panicked-after ts (stop d) ok

  drops-take_one : (d : Delivery T) → (take_one d).drops ≡ d.drops
  unfolding receive
  drops-take_one d = on_queue d.q
    where
      on_queue : (q : List (Event T)) → (take_one (record d { q = q })).drops ≡ d.drops
      on_queue [] = refl
      on_queue (e ∷ es) = refl

  drops-send :
      (e : Event T) (d : Delivery T)
      → d.closed ≡ false
      → d.drops < 2 ^ 64
      → (send e d).drops ≡ (d.drops + (if has_room d then 0 else 1)) % 2 ^ 64
  unfolding send
  drops-send e d unclosed h = elim (Bool-cases (has_room d)) [
    | inl room ↦ rw (unclosed, room) (omega arith)
    | inr full ↦ rw (unclosed, full) refl
  ]

  -- The counter of drops is the number of events lost, modulo 2 ^ 64.
  drops-after :
      (ts : List (Turn T)) (d : Delivery T)
      → sends_open d.closed ts ≡ true
      → d.drops < 2 ^ 64
      → (after ts d).drops ≡ (d.drops + lost ts d) % 2 ^ 64
  unfolding after lost turn stop sends_open
  drops-after [] d ok h = omega arith
  drops-after (sent e ∷ ts) d ok h =
      let (unclosed, rest) = open_sent e ts d ok in
      let step = drops-send e d unclosed h in
      drops-after ts (send e d) rest (omega arith) ∙ omega arith
  drops-after (taken ∷ ts) d ok h =
      let rest = open_taken ts d ok in
      ground (arith, drops-after ts (take_one d) rest, drops-take_one d)
  drops-after (stopped ∷ ts) d ok h = drops-after ts (stop d) ok h

  -- Each event that was sent is accepted or counted as lost.
  length-sent_events :
      (ts : List (Turn T)) (d : Delivery T)
      → length (sent_events ts) ≡ length (accepted ts d) + lost ts d
  unfolding sent_events accepted lost turn
  length-sent_events [] d = refl
  length-sent_events (sent e ∷ ts) d = elim (Bool-cases (has_room d)) [
    | inl room ↦ rw room (ground (arith, length-sent_events ts (send e d)))
    | inr full ↦ rw full (ground (arith, length-sent_events ts (send e d)))
  ]
  length-sent_events (taken ∷ ts) d = length-sent_events ts (take_one d)
  length-sent_events (stopped ∷ ts) d = length-sent_events ts (stop d)

  accepted_all :
      (ts : List (Turn T)) (d : Delivery T) → lost ts d ≡ 0 → accepted ts d ≡ sent_events ts
  unfolding sent_events accepted lost turn
  accepted_all [] d h = refl
  accepted_all (sent e ∷ ts) d h = elim (Bool-cases (has_room d)) [
    | inl room ↦ rw room (ap (λ es. e ∷ es) (accepted_all ts (send e d) (ground (arith, room))))
    | inr full ↦ absurd (ground (arith, full))
  ]
  accepted_all (taken ∷ ts) d h = accepted_all ts (take_one d) h
  accepted_all (stopped ∷ ts) d h = accepted_all ts (stop d) h

  length-q_send :
      (e : Event T) (d : Delivery T)
      → length d.q ≤ delivery_queue_depth
      → length (send e d).q ≤ delivery_queue_depth
  unfolding send
  length-q_send e d h = ground (arith, length-append d.q (e ∷ []))

  length-q_after :
      (ts : List (Turn T)) (d : Delivery T)
      → length d.q ≤ delivery_queue_depth
      → length (after ts d).q ≤ delivery_queue_depth
  unfolding after turn stop
  length-q_after [] d h = h
  length-q_after (sent e ∷ ts) d h = length-q_after ts (send e d) (length-q_send e d h)
  length-q_after (taken ∷ ts) d h =
      length-q_after ts (take_one d)
        (ground (arith, ap length (q-take_one d), length-append (head_of d.q) (take_one d).q))
  length-q_after (stopped ∷ ts) d h = length-q_after ts (stop d) h

  pub after-new_delivery :
      (ts : List (Turn T)) (i : ℕ) (h : Handler T)
      → sends_open false ts ≡ true
      → (handled ts (new_delivery i h) ++ (after ts (new_delivery i h)).q
          ≡ accepted ts (new_delivery i h))
        × (length (sent_events ts)
            ≡ length (accepted ts (new_delivery i h)) + lost ts (new_delivery i h))
        × ((after ts (new_delivery i h)).drops ≡ lost ts (new_delivery i h) % 2 ^ 64)
        × (length (after ts (new_delivery i h)).q ≤ delivery_queue_depth)
        × ((after ts (new_delivery i h)).panicked ≡ false)
  unfolding new_delivery
  after-new_delivery ts i h ok =
      let d = new_delivery i h in
      (
        handled_lem ts d ok,
        length-sent_events ts d,
        drops-after ts d ok (omega arith) ∙ ap (λ n. n % 2 ^ 64) (omega arith),
        length-q_after ts d (omega arith),
        panicked-after ts d ok,
      )

  -- If the queue of a new subscription never was full when an event was sent, the handler was
  -- called with a prefix of the events sent, in their order, and the rest is queued.
  pub handled_all :
      (ts : List (Turn T)) (i : ℕ) (h : Handler T)
      → sends_open false ts ≡ true
      → lost ts (new_delivery i h) ≡ 0
      → handled ts (new_delivery i h) ++ (after ts (new_delivery i h)).q ≡ sent_events ts
  handled_all ts i h ok none_lost =
      (after-new_delivery ts i h ok).0 ∙ accepted_all ts (new_delivery i h) none_lost
