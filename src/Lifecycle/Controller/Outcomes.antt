-- ===== src/Lifecycle/Controller/Outcomes.antt =====
-- How a start can end: `ApplyWithContext` with `ActionStart`, on every branch.
use mathlib.Core.Path.{subst}
use gapi.Prelude.{
  ◌≡◌, refl, sym, ap, ◌∙◌, String, Bool, true, false, ◌&&◌, List, [], ◌∷◌, ◌++◌, map, none, some,
  Option-cases, arith, if◌then◌else◌, elem, ltb, Bool-cases, inl, inr, ◌⊎◌, ◌↔◌,
}
use mathlib.Core.List.{append-nil}
use gapi.StateMachine.{is_allowed}
use gapi.Lifecycle.States.{LifecycleState, starting, running, error, same_state, lifecycle_table}
use gapi.Lifecycle.Wait.{StartTimeout, feed_all, start_timeout, knows_speech, await_running}
use gapi.Lifecycle.Wait.Starting.{IsHeard, await_loop-none_iff, await_loop-some}
use gapi.Lifecycle.Controller.{
  World, Controller, Outcome, ok, invalid_transition, err, dependency_failed, start_timed_out,
  runner_failed, start, ensure, moved, failed, is_started, end_start, apply, await_start,
}
use gapi.Lifecycle.Controller.Starts.{
  hard_deps, all_started, asked, log, start_marked_spawns, woken_by, waits, await_start_late,
  await_start_heard, await_start_refused, spawn_failed_lem, fail_spawn, apply-start_claims,
  apply-start_blocked,
}

-- The silence deadline is on: the runner can say whether the child has spoken, and the budget is
-- shorter than the readiness budget.
abbrev pub is_armed : World → Bool
is_armed w =
    knows_speech w.report && (ltb 0 w.silence_budget && ltb w.silence_budget w.readiness_budget)

-- Among the statuses that arrive while the child is started, as many as the feed keeps, and those
-- after them, is a running status of this run, before a silent child is given up.
abbrev pub IsRunningHeard : World → Type 0
IsRunningHeard w = IsHeard w.run_id w.cutover (is_armed w) (woken_by w (feed_all w.early []))

abbrev pub can_start : LifecycleState → Bool
can_start s = is_allowed same_state starting (lifecycle_table s)

abbrev pub can_fail : LifecycleState → Bool
can_fail s = is_allowed same_state error (lifecycle_table s)

-- The deadline that a timeout names: silence, of a child that is known to be silent, or readiness.
abbrev pub IsDeadline : World → String → StartTimeout → Type 0
IsDeadline w id t =
    (is_armed w ≡ true)
      × (t.waited ≡ w.silence_budget)
      × (t.silent ≡ true)
      × (t.silence_known ≡ true)
    ⊎ (t ≡ start_timeout id w.run_id w.report w.readiness_budget)

-- Every hard dependency is started for this agent, and the runner's `Start` succeeds.
abbrev pub IsSpawned : World → List String → Controller → Type 0
IsSpawned w stack c =
    (all_started w (stack ++ c.id ∷ []) (hard_deps w) ≡ true) × (w.start_ok ≡ true)

-- What is true of a start of `c` that ends with an outcome, in the controller `d`: when it ends so,
-- the state that it leaves, and what it has done.
abbrev pub EndsAs : World → List String → Controller → Outcome Unit → Controller → Type 0
EndsAs w stack c (ok a) d =
    IsSpawned w stack c
    × (can_start c.state ≡ true)
    × IsRunningHeard w
    × (d.state ≡ running)
    × (d.effects ≡ c.effects ++ asked w ++ moved c.state starting ∷ moved starting running ∷ [])
EndsAs w stack c (err (start_timed_out t)) d =
    IsSpawned w stack c
    × (can_start c.state ≡ true)
    × (¬ IsRunningHeard w)
    × IsDeadline w c.id t
    × (d.state ≡ error)
    × (d.effects
        ≡ c.effects ++ asked w ++ moved c.state starting ∷ moved starting error ∷ failed t ∷ [])
EndsAs w stack c (err (invalid_transition from to)) d =
    IsSpawned w stack c
    × (can_start c.state ≡ false)
    × (from ≡ c.state)
    × (to ≡ starting)
    × (d.state ≡ c.state)
    × (d.effects ≡ c.effects ++ asked w)
EndsAs w stack c (err runner_failed) d =
    (all_started w (stack ++ c.id ∷ []) (hard_deps w) ≡ true)
    × (w.start_ok ≡ false)
    × (d.state ≡ (if can_fail c.state then error else c.state))
    × (d.effects
        ≡ c.effects ++ asked w ++ (if can_fail c.state then moved c.state error ∷ [] else []))
EndsAs w stack c (err (dependency_failed dep)) d =
    (before after : List String) × (hard_deps w ≡ before ++ dep ∷ after)
    × (all_started w (stack ++ c.id ∷ []) before ≡ true)
    × (w.ensure_started (stack ++ c.id ∷ []) dep ≡ false)
    × (d.state ≡ c.state)
    × (d.effects ≡ c.effects ++ map ensure (before ++ dep ∷ []))
EndsAs w stack c (err _) d = ⊥

-- Dependencies that are not all started have a first one that is not.
first_unstarted :
    (w : World) (stack deps : List String)
    → all_started w stack deps ≡ false
    → (dep : String) × (before after : List String) × (deps ≡ before ++ dep ∷ after)
      × (all_started w stack before ≡ true)
      × (w.ensure_started stack dep ≡ false)
first_unstarted w stack [] h = absurd cc
first_unstarted w stack (dep ∷ deps) h = elim (Bool-cases (w.ensure_started stack dep)) [
  | inl this ↦
      let (d, before, after, split, others, fails) =
        first_unstarted w stack deps (ground (arith, h, this)) in
      (d, dep ∷ before, after, ap (λ ds. dep ∷ ds) split, ground (arith, this, others), fails)
  | inr fails ↦ (dep, [], deps, refl, refl, fails)
]

module _ (w : World) (stack : List String) (c : Controller) (fresh : elem c.id stack ≡ false)
    (startable : is_started c.state ≡ false) (free : c.starting_now ≡ false) where
  abbrev released : Outcome Unit × Controller → Outcome Unit × Controller
  released r = (r.0, end_start r.1)

  abbrev spawning : Controller
  spawning = record c {
    starting_now = true;
    state_ch = feed_all w.early [];
    effects = c.effects ++ asked w;
  }

  apply-start_spawned :
      (b : Bool)
      → w.start_ok ≡ b
      → all_started w (stack ++ c.id ∷ []) (hard_deps w) ≡ true
      → apply w stack start c ≡ released ((if b then await_start w else fail_spawn) spawning)
  apply-start_spawned b spawned deps_started =
      apply-start_claims w stack c fresh startable free
      ∙ ap released (
          start_marked_spawns w (stack ++ c.id ∷ []) (record c { starting_now = true }) deps_started
          ∙ ap (λ x. (if x then await_start w else fail_spawn) spawning) spawned)

  waits-none_iff : (waits w spawning ≡ none) ↔ IsRunningHeard w
  unfolding await_running
  waits-none_iff =
      await_loop-none_iff c.id w.run_id w.readiness_budget w.silence_budget w.cutover w.report
        (is_armed w) (woken_by w (feed_all w.early []))

  waits-IsDeadline : (t : StartTimeout) → waits w spawning ≡ some t → IsDeadline w c.id t
  unfolding await_running
  waits-IsDeadline t =
      await_loop-some c.id w.run_id w.readiness_budget w.silence_budget w.cutover w.report
        (is_armed w) (woken_by w (feed_all w.early [])) t

  abbrev Ended : Outcome Unit × Controller → Type 0
  Ended r = (r.1.starting_now ≡ false) × EndsAs w stack c r.0 r.1

  awaited-Ended :
      IsSpawned w stack c
      → (b : Bool) → can_start c.state ≡ b
      → Ended (released (await_start w spawning))
  unfolding end_start
  awaited-Ended spawned true allowed = elim (Option-cases (waits w spawning)) [
    | inl heard ↦
        subst Ended (sym (ap released (await_start_heard w spawning allowed heard)))
          (refl, (spawned, allowed, waits-none_iff.0 heard, refl, refl))
    | inr (t, late) ↦ subst Ended (sym (ap released (await_start_late w spawning t allowed late))) (
      refl,
      (
        spawned,
        allowed,
        λ heard. absurd (ground (arith, late, waits-none_iff.1 heard)),
        waits-IsDeadline t late,
        refl,
        refl,
      ),
    )
  ]
  awaited-Ended spawned false refused =
      subst Ended (sym (ap released (await_start_refused w spawning refused)))
        (refl, (spawned, refused, refl, refl, refl, refl))

  spawn_failed-Ended :
      all_started w (stack ++ c.id ∷ []) (hard_deps w) ≡ true
      → w.start_ok ≡ false
      → Ended (released (fail_spawn spawning))
  unfolding end_start
  spawn_failed-Ended deps_started fails =
      subst Ended (sym (ap released (spawn_failed_lem spawning))) (by (can_fail c.state))
    where
      by :
          (b : Bool)
          → ((end_start (
                if b
                then log (record spawning { state = error }) (moved c.state error ∷ [])
                else spawning)).starting_now
              ≡ false)
            × ((all_started w (stack ++ c.id ∷ []) (hard_deps w) ≡ true)
                × (w.start_ok ≡ false)
                × ((end_start (
                      if b
                      then log (record spawning { state = error }) (moved c.state error ∷ [])
                      else spawning)).state
                    ≡ (if b then error else c.state))
                × ((end_start (
                      if b
                      then log (record spawning { state = error }) (moved c.state error ∷ [])
                      else spawning)).effects
                    ≡ c.effects ++ asked w ++ (if b then moved c.state error ∷ [] else [])))
      by true = (refl, (deps_started, fails, refl, refl))
      by false = (refl, (deps_started, fails, refl, sym (append-nil (c.effects ++ asked w))))

  spawned-Ended :
      all_started w (stack ++ c.id ∷ []) (hard_deps w) ≡ true → Ended (apply w stack start c)
  spawned-Ended deps_started = elim (Bool-cases w.start_ok) [
    | inl spawned ↦
        subst Ended (sym (apply-start_spawned true spawned deps_started))
          (awaited-Ended (deps_started, spawned) (can_start c.state) refl)
    | inr fails ↦
        subst Ended (sym (apply-start_spawned false fails deps_started))
          (spawn_failed-Ended deps_started fails)
  ]

  blocked-Ended :
      all_started w (stack ++ c.id ∷ []) (hard_deps w) ≡ false → Ended (apply w stack start c)
  blocked-Ended h =
      let (dep, before, after, split, others, fails) =
        first_unstarted w (stack ++ c.id ∷ []) (hard_deps w) h in
      subst Ended
        (sym
          (apply-start_blocked w stack before after dep c fresh startable free split others fails))
        (refl, (before, after, split, others, fails, refl, refl))

  -- However a start of an agent ends, that is in no dependency cycle, not started and not being
  -- started by another call: the start marker is free again, and the outcome tells what was the
  -- case, what state the agent is left in, and what was done in which order. It succeeds, in RUNNING,
  -- only after every hard dependency was started, the child was spawned and its running status was
  -- heard; a timeout is one of the two deadlines, leaves ERROR and is published last; a dependency
  -- that fails is the first hard one that does not start, and then nothing is spawned and the state
  -- is as it was; after a spawn that fails the state is ERROR if the table lets it; and nothing else
  -- ends a start but a state that STARTING cannot follow.
  pub apply-start-EndsAs :
      ((apply w stack start c).1.starting_now ≡ false)
      × EndsAs w stack c (apply w stack start c).0 (apply w stack start c).1
  apply-start-EndsAs = elim (Bool-cases (all_started w (stack ++ c.id ∷ []) (hard_deps w))) [
    | inl deps_started ↦ spawned-Ended deps_started
    | inr blocked ↦ blocked-Ended blocked
  ]

  -- A start of such an agent succeeds exactly if every hard dependency is started, the runner spawns
  -- the child, STARTING may follow the agent's state, and a running status of this run arrives, from
  -- the spawn on, before a deadline. What the feed held before the start plays no part.
  pub apply-start_runs_iff :
      ((apply w stack start c).0 ≡ ok tt)
      ↔ (IsSpawned w stack c × (can_start c.state ≡ true) × IsRunningHeard w)
  apply-start_runs_iff = (
    λ e.
        let (spawned, allowed, heard, _, _) =
          subst (λ o. EndsAs w stack c o (apply w stack start c).1) e apply-start-EndsAs.1 in
        (spawned, allowed, heard),
    λ (spawned, allowed, heard).
        ap (λ r. r.0)
          (apply-start_spawned true spawned.1 spawned.0
            ∙ ap released (await_start_heard w spawning allowed (waits-none_iff.1 heard))),
  )
