-- ===== src/Lifecycle/Wait.antt =====
-- core/lifecycle/startwait.go, and the feed of statuses that the waits read
-- (the handler that core/lifecycle/controller.go subscribes).
--
-- Time is a number. A wait is given the wakes that come before its last deadline, in order; when
-- the list ends, that deadline expires. A text of a status is in lower case and trimmed, as the
-- handler leaves it, so that `EqualFold` is equality.
pub mod Starting
use gapi.Prelude.{
  ℕ, ◌-◌, String, Bool, true, false, not, ◌&&◌, List, [], ◌∷◌, ◌++◌, Option, none, some, ltb,
  if◌then◌else◌, same, length,
}

pub record StatusEvt : Type 0 where
  pub state : String
  pub time : ℕ
  pub run_id : String

-- The channel's capacity.
abbrev pub feed_size : ℕ
feed_size = 64

abbrev pub drop_oldest : List StatusEvt → List StatusEvt
drop_oldest [] = []
drop_oldest (e ∷ es) = es

-- The two `select`s of the handler: a full channel loses its oldest event.
unfoldable pub feed : StatusEvt → List StatusEvt → List StatusEvt
feed evt ch = if ltb (length ch) feed_size then ch ++ evt ∷ [] else drop_oldest ch ++ evt ∷ []

-- Statuses that arrive one after the other.
unfoldable pub feed_all : List StatusEvt → List StatusEvt → List StatusEvt
unfolding feed
feed_all [] ch = ch
feed_all (evt ∷ evts) ch = feed_all evts (feed evt ch)

-- A received `LifecycleStatus`, its texts normalised.
pub record LifecycleStatus : Type 0 where
  pub agent_id : String
  pub state : String
  pub time : Option ℕ
  pub run_id : String

-- The handler: other agents' statuses and empty states are ignored; `now` stands for a missing
-- time.
unfoldable pub on_status : String → ℕ → LifecycleStatus → List StatusEvt → List StatusEvt
unfolding feed
on_status id now st ch =
    if not (same st.agent_id id)
    then ch
    else if same st.state ""
    then ch
    else feed
        (record {
          state = st.state;
          time = elim st.time [ none ↦ now | some t ↦ t ];
          run_id = st.run_id;
        })
        ch

pub record StartTimeout : Type 0 where
  pub agent_id : String
  pub run_id : String
  pub waited : ℕ
  pub silent : Bool
  pub silence_known : Bool
  pub first_frame : ℕ

-- What the runner can say when a deadline expires: `SpeechReporter` and `FirstFrameReporter`,
-- where it implements them.
pub record Report : Type 0 where
  pub has_spoken : Option Bool
  pub first_frame_latency : Option ℕ

-- `startTimeout`
unfoldable pub start_timeout : String → String → Report → ℕ → StartTimeout
start_timeout id run_id report d = record {
  agent_id = id;
  run_id = run_id;
  waited = d;
  silent = elim report.has_spoken [ none ↦ false | some spoken ↦ not spoken ];
  silence_known = elim report.has_spoken [ none ↦ false | some spoken ↦ true ];
  first_frame = elim report.first_frame_latency [ none ↦ 0 | some t ↦ t ];
}

-- A wake of the loop: a status, or the silence timer with what the runner says at that moment.
pub data Wake : Type 0 where
  status : StatusEvt → Wake
  silence_expired : Report → Wake

abbrev is_silent : Report → Bool
is_silent report = elim report.has_spoken [ none ↦ false | some spoken ↦ not spoken ]

abbrev pub knows_speech : Report → Bool
knows_speech report = elim report.has_spoken [ none ↦ false | some _ ↦ true ]

-- A status of this run, from the cutover on, that says "running".
unfoldable pub is_running : String → ℕ → StatusEvt → Bool
is_running run_id since ev =
    not (ltb ev.time since) && (same ev.state "running" && same ev.run_id run_id)

-- What a wait leaves in the channel: it reads up to the status that ends it.
unfoldable pub unread : String → ℕ → List StatusEvt → List StatusEvt
unfolding is_running
unread run_id since [] = []
unread run_id since (ev ∷ evs) =
    let rest = unread run_id since evs in if is_running run_id since ev then evs else rest

module _ (id run_id : String) (readiness silence since : ℕ) (last : Report) where
  -- The loop; `armed` says that the channel `silenceC` is not nil.
  unfoldable pub await_loop : Bool → List Wake → Option StartTimeout
  unfolding is_running
  await_loop armed [] = some (start_timeout id run_id last readiness)
  await_loop armed (status ev ∷ wakes) =
      let rest = await_loop armed wakes in if is_running run_id since ev then none else rest
  await_loop armed (silence_expired report ∷ wakes) =
      let rest = await_loop false wakes in
      if armed && is_silent report then some (start_timeout id run_id report silence) else rest

  -- `awaitRunningWithRunIDSince`; the last report also tells whether the runner can speak of
  -- silence at all.
  unfoldable pub await_running : List Wake → Option StartTimeout
  unfolding await_loop
  await_running wakes =
      await_loop (knows_speech last && (ltb 0 silence && ltb silence readiness)) wakes

-- `awaitTarget`: true if the wanted state arrives before the deadline.
unfoldable pub await_target : String → List StatusEvt → Bool
await_target want [] = false
await_target want (ev ∷ statuses) =
    let rest = await_target want statuses in if same ev.state want then true else rest
