-- ===== src/Lifecycle/Controller/Starts.antt =====
-- What a start does, in order, on every branch.
use gapi.Prelude.{
  ◌≡◌, refl, ◌∙◌, String, Bool, true, false, ◌&&◌, List, [], ◌∷◌, ◌++◌, map, Option, none, some,
  arith, if◌then◌else◌, elem,
}
use mathlib.Core.List.{append_assoc, append-nil}
use gapi.StateMachine.{is_allowed, transition_to}
use gapi.Lifecycle.States.{LifecycleState, starting, running, error, same_state, lifecycle_table}
use gapi.Lifecycle.Wait.{StatusEvt, StartTimeout, Wake, status, feed_all, unread, await_running}
use gapi.Lifecycle.Controller.{
  emit, pure, throw, ◌>>◌, tell_run_id, M, World, Controller, ok, invalid_transition, err,
  dependency_failed, start_timed_out, runner_failed, Effect, control, start, ensure,
  runner_set_run_id, runner_start, moved, failed, is_started, dependency_classes, transition,
  try_transition, begin_start, end_start, enter, apply, apply_start, claim_start, start_marked,
  await_start, ensure_hard, ensure_soft,
}

abbrev pub hard_deps : World → List String
hard_deps w = (dependency_classes w.deps).0

abbrev pub soft_deps : World → List String
soft_deps w = (dependency_classes w.deps).1

-- The resolver answers for each of the dependencies that it is started.
abbrev pub all_started : World → List String → List String → Bool
all_started w stack [] = true
all_started w stack (dep ∷ deps) = w.ensure_started stack dep && all_started w stack deps

abbrev pub log : Controller → List Effect → Controller
log c es = record c { effects = c.effects ++ es }

log-log : (c : Controller) (xs ys : List Effect) → log (log c xs) ys ≡ log c (xs ++ ys)
log-log c xs ys = rw append_assoc

both_true : (a b : Bool) → a && b ≡ true → (a ≡ true) × (b ≡ true)
both_true a b h = ground arith

ensure_hard_all :
    (w : World) (stack deps : List String) (c : Controller)
    → all_started w stack deps ≡ true
    → ensure_hard w stack deps c ≡ (ok tt, log c (map ensure deps))
unfolding ensure_hard
ensure_hard_all w stack [] c h = rw append-nil
ensure_hard_all w stack (dep ∷ deps) c h =
    let (this, others) = both_true (w.ensure_started stack dep) (all_started w stack deps) h in
    rw (this, ensure_hard_all w stack deps (log c (ensure dep ∷ [])) others, append_assoc)

ensure_soft_lem :
    (stack deps : List String) (c : Controller)
    → ensure_soft stack deps c ≡ (ok tt, log c (map ensure deps))
unfolding ensure_soft
ensure_soft_lem stack [] c = rw append-nil
ensure_soft_lem stack (dep ∷ deps) c =
    rw (ensure_soft_lem stack deps (log c (ensure dep ∷ [])), append_assoc)

-- The first hard dependency that fails ends the loop.
ensure_hard_first :
    (w : World) (stack before after : List String) (dep : String) (c : Controller)
    → all_started w stack before ≡ true
    → w.ensure_started stack dep ≡ false
    → ensure_hard w stack (before ++ dep ∷ after) c
      ≡ (err (dependency_failed dep), log c (map ensure (before ++ dep ∷ [])))
unfolding ensure_hard
ensure_hard_first w stack [] after dep c h no_start = rw no_start
ensure_hard_first w stack (x ∷ before) after dep c h no_start =
    let (this, others) = both_true (w.ensure_started stack x) (all_started w stack before) h in
    rw (
      this,
      ensure_hard_first w stack before after dep (log c (ensure x ∷ [])) others no_start,
      append_assoc,
    )

-- What a listed, and an unlisted, transition does to the controller.
pub transition_listed :
    (s : LifecycleState) (c : Controller)
    → is_allowed same_state s (lifecycle_table c.state) ≡ true
    → transition s c ≡ (ok tt, log (record c { state = s }) (moved c.state s ∷ []))
unfolding transition transition_to
transition_listed s c h = ground arith

pub transition_refused :
    (s : LifecycleState) (c : Controller)
    → is_allowed same_state s (lifecycle_table c.state) ≡ false
    → transition s c ≡ (err (invalid_transition c.state s), c)
unfolding transition transition_to
transition_refused s c h = ground arith

abbrev pub told : World → List Effect
told w = if w.sets_run_id then runner_set_run_id w.run_id ∷ [] else []

-- What is done up to the spawn, in this order.
abbrev pub asked : World → List Effect
asked w =
    map ensure (hard_deps w)
    ++ map ensure (soft_deps w)
    ++ control start ∷ told w
    ++ runner_start ∷ []

tell_run_id_lem : (w : World) (c : Controller) → tell_run_id w c ≡ (ok tt, log c (told w))
tell_run_id_lem w c = by w.sets_run_id
  where
    by :
        (b : Bool)
        → (if b then emit (runner_set_run_id w.run_id) else pure tt) c
          ≡ (ok tt, log c (if b then runner_set_run_id w.run_id ∷ [] else []))
    by true = refl
    by false = rw append-nil

-- With the hard dependencies started, what is left is the runner's answer to the spawn, with an empty
-- feed that the runner's first statuses then reach.
pub start_marked_spawns :
    (w : World) (stack : List String) (c : Controller)
    → all_started w stack (hard_deps w) ≡ true
    → start_marked w stack c
      ≡ (if w.start_ok then await_start w else (try_transition error >> throw runner_failed))
          (record c { state_ch = feed_all w.early []; effects = c.effects ++ asked w })
unfolding start_marked
start_marked_spawns w stack c h =
    rw
      (
        ensure_hard_all w stack (hard_deps w) c h,
        ensure_soft_lem stack (soft_deps w) (log c (map ensure (hard_deps w))),
        tell_run_id_lem w (
            log (log (log c (map ensure (hard_deps w))) (map ensure (soft_deps w)))
              (control start ∷ [])),
      )
      (simp append_assoc)

-- What the wait is woken by: the statuses that the feed holds, and what comes after.
abbrev pub woken_by : World → List StatusEvt → List Wake
woken_by w arrived = map status arrived ++ w.wakes

abbrev pub waits : World → Controller → Option StartTimeout
waits w c =
    await_running c.id w.run_id w.readiness_budget w.silence_budget w.cutover w.report
      (woken_by w c.state_ch)

abbrev pub left_over : World → Controller → List StatusEvt
left_over w c = unread w.run_id w.cutover c.state_ch

pub await_start_late :
    (w : World) (c : Controller) (timeout : StartTimeout)
    → is_allowed same_state starting (lifecycle_table c.state) ≡ true
    → waits w c ≡ some timeout
    → await_start w c ≡ (
      err (start_timed_out timeout),
      log
          (record c { state = error; state_ch = left_over w c })
          (moved c.state starting ∷ moved starting error ∷ failed timeout ∷ []),
    )
unfolding await_start is_allowed lifecycle_table try_transition
await_start_late w c timeout allowed late =
    rw (transition_listed starting c allowed, late) (simp append_assoc)

pub await_start_heard :
    (w : World) (c : Controller)
    → is_allowed same_state starting (lifecycle_table c.state) ≡ true
    → waits w c ≡ none
    → await_start w c ≡ (
      ok tt,
      log
          (record c { state = running; state_ch = left_over w c })
          (moved c.state starting ∷ moved starting running ∷ []),
    )
unfolding await_start is_allowed lifecycle_table
await_start_heard w c allowed heard = rw (
  transition_listed starting c allowed,
  heard,
  transition_listed running
      (log (record c { state = starting; state_ch = left_over w c }) (moved c.state starting ∷ []))
      refl,
  append_assoc,
)

-- A start that is not refused at once runs between the claim and the release of the marker.
pub apply-start_claims :
    (w : World) (stack : List String) (c : Controller)
    → elem c.id stack ≡ false
    → is_started c.state ≡ false
    → c.starting_now ≡ false
    → apply w stack start c ≡ (
        let r = start_marked w (stack ++ c.id ∷ []) (record c { starting_now = true }) in
        (r.0, end_start r.1))
unfolding apply apply_start claim_start enter begin_start
apply-start_claims w stack c fresh startable free = rw (fresh, startable, free)

-- The first hard dependency that does not start ends the start before anything is spawned: only
-- the dependencies up to it were asked for, and the state is as it was.
pub apply-start_blocked :
    (w : World) (stack before after : List String) (dep : String) (c : Controller)
    → elem c.id stack ≡ false
    → is_started c.state ≡ false
    → c.starting_now ≡ false
    → hard_deps w ≡ before ++ dep ∷ after
    → all_started w (stack ++ c.id ∷ []) before ≡ true
    → w.ensure_started (stack ++ c.id ∷ []) dep ≡ false
    → apply w stack start c ≡ (
      err (dependency_failed dep),
      record c { starting_now = false; effects = c.effects ++ map ensure (before ++ dep ∷ []) },
    )
unfolding start_marked end_start
apply-start_blocked w stack before after dep c fresh startable free deps some_started fails =
    apply-start_claims w stack c fresh startable free
    ∙ rw (
      deps,
      ensure_hard_first w (stack ++ c.id ∷ []) before after dep (record c { starting_now = true })
          some_started fails,
    )

pub await_start_refused :
    (w : World) (c : Controller)
    → is_allowed same_state starting (lifecycle_table c.state) ≡ false
    → await_start w c ≡ (err (invalid_transition c.state starting), c)
unfolding await_start
await_start_refused w c refused = rw (transition_refused starting c refused)

abbrev pub fail_spawn : M Unit
fail_spawn = try_transition error >> throw runner_failed

-- After a spawn that failed: ERROR, where the table lets it.
pub spawn_failed_lem :
    (c : Controller)
    → fail_spawn c ≡ (
      err runner_failed,
      if is_allowed same_state error (lifecycle_table c.state)
          then log (record c { state = error }) (moved c.state error ∷ [])
          else c,
    )
unfolding try_transition
spawn_failed_lem c = by (is_allowed same_state error (lifecycle_table c.state)) refl
  where
    by :
        (b : Bool)
        → is_allowed same_state error (lifecycle_table c.state) ≡ b
        → fail_spawn c ≡ (
          err runner_failed,
          if b then log (record c { state = error }) (moved c.state error ∷ []) else c,
        )
    by true allowed = rw (transition_listed error c allowed)
    by false refused = rw (transition_refused error c refused)
