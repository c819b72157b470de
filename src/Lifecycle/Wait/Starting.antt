-- ===== src/Lifecycle/Wait/Starting.antt =====
-- What the two deadlines of a start decide.
use gapi.Prelude.{
  ℕ, ◌≡◌, ◌≤◌, refl, ap, ◌-◌, String, Bool, true, false, ◌&&◌, List, [], ◌∷◌, ◌++◌, Option, none,
  some, ltb, length, if◌then◌else◌, arith, Bool-cases, inl, inr, ◌⊎◌, ◌↔◌, length-append,
}
use gapi.Lifecycle.Wait.{
  StatusEvt, feed_size, feed, drop_oldest, StartTimeout, Report, start_timeout, Wake, status,
  silence_expired, is_silent, is_running, await_loop,
}

length-drop_oldest : (ch : List StatusEvt) → length (drop_oldest ch) ≡ length ch - 1
length-drop_oldest [] = omega arith
length-drop_oldest (e ∷ es) = omega arith

-- The feed keeps to its size, and the newest status is always in it, last.
pub feed_lem :
    (evt : StatusEvt) (ch : List StatusEvt)
    → length ch ≤ feed_size
    → (length (feed evt ch) ≤ feed_size)
      × ((kept : List StatusEvt) × (feed evt ch ≡ kept ++ evt ∷ []))
unfolding feed
feed_lem evt ch h = (
  ground (
    arith,
    length-append ch (evt ∷ []),
    length-append (drop_oldest ch) (evt ∷ []),
    length-drop_oldest ch,
  ),
  (if ltb (length ch) feed_size then ch else drop_oldest ch, ground arith),
)

-- The first time that the silence timer fires, the runner reports that nothing was said.
abbrev pub first_silent : List Wake → Bool
first_silent [] = false
first_silent (status _ ∷ wakes) = first_silent wakes
first_silent (silence_expired report ∷ wakes) = is_silent report

-- A running status of this run comes before any end of the wait by silence.
abbrev pub IsHeard : String → ℕ → Bool → List Wake → Type 0
IsHeard run_id since armed wakes =
    (before after : List Wake) × (ev : StatusEvt) × (wakes ≡ before ++ status ev ∷ after)
    × (is_running run_id since ev ≡ true)
    × (armed && first_silent before ≡ false)

module _ (id run_id : String) (readiness silence since : ℕ) (last : Report) where
  abbrev wait : Bool → List Wake → Option StartTimeout
  wait = await_loop id run_id readiness silence since last

  heard :
      (armed : Bool) (wakes : List Wake)
      → wait armed wakes ≡ none
      → IsHeard run_id since armed wakes
  unfolding await_loop
  heard armed [] e = cc
  heard armed (status ev ∷ wakes) e = elim (Bool-cases (is_running run_id since ev)) [
    | inl now ↦ ([], wakes, ev, refl, now, ground arith)
    | inr later ↦
        let (before, after, ev', split, now, quiet) = heard armed wakes (ground arith) in
        (status ev ∷ before, after, ev', ap (λ w. status ev ∷ w) split, now, quiet)
  ]
  heard armed (silence_expired report ∷ wakes) e =
      let (before, after, ev', split, now, quiet) = heard false wakes (ground arith) in
      (
        silence_expired report ∷ before,
        after,
        ev',
        ap (λ w. silence_expired report ∷ w) split,
        now,
        ground arith,
      )

  hears :
      (armed : Bool) (before after : List Wake) (ev : StatusEvt)
      → is_running run_id since ev ≡ true
      → armed && first_silent before ≡ false
      → wait armed (before ++ status ev ∷ after) ≡ none
  unfolding await_loop
  hears armed [] after ev now quiet = rw now
  hears armed (status e ∷ before) after ev now quiet =
      ground (arith, hears armed before after ev now quiet)
  hears armed (silence_expired report ∷ before) after ev now quiet =
      rw quiet (hears false before after ev now refl)

  -- A wait succeeds exactly if a running status of this run comes, and comes before the silence
  -- deadline finds an armed wait silent.
  pub await_loop-none_iff :
      (armed : Bool) (wakes : List Wake)
      → (wait armed wakes ≡ none) ↔ IsHeard run_id since armed wakes
  await_loop-none_iff armed wakes = (
    heard armed wakes,
    λ (before, after, ev, split, now, quiet). rw split (hears armed before after ev now quiet),
  )

  -- A failed wait names the deadline that ended it: the silence budget, only while armed and for a
  -- child that is known to be silent, or else the readiness budget.
  pub await_loop-some :
      (armed : Bool) (wakes : List Wake) (e : StartTimeout)
      → wait armed wakes ≡ some e
      → (armed ≡ true) × (e.waited ≡ silence) × (e.silent ≡ true) × (e.silence_known ≡ true)
        ⊎ (e ≡ start_timeout id run_id last readiness)
  unfolding await_loop start_timeout
  await_loop-some armed [] e h = inr (ground arith)
  await_loop-some armed (status ev ∷ wakes) e h = ground (arith, await_loop-some armed wakes e)
  await_loop-some armed (silence_expired report ∷ wakes) e h =
      elim (Bool-cases (armed && is_silent report)) [
        | inl ends ↦ inl (ground arith, ground arith, ground arith, ground arith)
        | inr goes ↦ ground (arith, await_loop-some false wakes e)
      ]
