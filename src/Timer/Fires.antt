-- ===== src/Timer/Fires.antt =====
-- How often a schedule fires, and how long its loop waits.
use gapi.Prelude.{
  ℕ, suc, ◌≤◌, ◌≡◌, refl, sym, ap, ◌∙◌, String, Bool, true, false, List, [], ◌∷◌, Option, none,
  some, ltb, arith, if◌then◌else◌,
}
use gapi.Prelude.Int.{ℤ, pos, ◌<ℤ◌, leb_int, ◌+ℤ◌, +ℤ_cancel}
use mathlib.Core.Path.{subst}
use gapi.Prelude.Text.{trim_space}
use gapi.Timer.Accepted.{IsUsable, parse_schedule_at-IsUsable}
use gapi.Timer.Schedule.{Schedule, interval, once, cron, Library, parsed, parse_schedule_at, next}
use gapi.Timer.Agent.{
  Wake, elapsed, cancelled, LoopEvent, sleeps, fires, exhausted, ends, wait_for, max_duration,
  on_next, run,
}

unfoldable pub count_fires : List LoopEvent → ℕ
count_fires [] = 0
count_fires (fires ∷ es) = suc (count_fires es)
count_fires (sleeps d ∷ es) = count_fires es
count_fires (exhausted ∷ es) = count_fires es
count_fires (ends ∷ es) = count_fires es

-- Every wait of the loop is positive.
abbrev pub AllPositive : List LoopEvent → Type 0
AllPositive [] = Unit
AllPositive (sleeps d ∷ es) = (pos 0 <ℤ d) × AllPositive es
AllPositive (fires ∷ es) = AllPositive es
AllPositive (exhausted ∷ es) = AllPositive es
AllPositive (ends ∷ es) = AllPositive es

-- The rounds that are not cancelled, up to the first that is.
unfoldable pub elapsed_rounds : List (ℤ × Wake) → ℕ
elapsed_rounds [] = 0
elapsed_rounds ((now, elapsed) ∷ rounds) = suc (elapsed_rounds rounds)
elapsed_rounds ((now, cancelled) ∷ rounds) = 0

wait_for-interval : (now d : ℤ) → pos 0 <ℤ d → pos 0 <ℤ wait_for (now +ℤ d) now
unfolding wait_for
wait_for-interval now d h = rw (+ℤ_cancel now d) (positive (leb_int d (pos 0)) refl)
  where
    positive :
        (b : Bool)
        → leb_int d (pos 0) ≡ b
        → pos 0 <ℤ (if b then pos 0 else if leb_int max_duration d then max_duration else d)
    positive true low = absurd (ground (arith, h, low))
    positive false high = capped (leb_int max_duration d)
      where
        capped : (c : Bool) → pos 0 <ℤ (if c then max_duration else d)
        capped true = omega arith
        capped false = h

module _ {Cron : Type 0} (lib : Library Cron) where
  -- A schedule that has fired fires no more.
  run-fired : (at : ℤ) (rounds : List (ℤ × Wake)) → count_fires (run lib rounds (once at true)) ≡ 0
  unfolding run next count_fires
  run-fired at [] = refl
  run-fired at ((now, wake) ∷ rounds) = refl

  run-once :
      (at : ℤ) (rounds : List (ℤ × Wake))
      → count_fires (run lib rounds (once at false))
        ≡ (if ltb 0 (elapsed_rounds rounds) then 1 else 0)
  unfolding run next count_fires elapsed_rounds
  run-once at [] = refl
  run-once at ((now, cancelled) ∷ rounds) = refl
  run-once at ((now, elapsed) ∷ rounds) = ap suc (run-fired at rounds) ∙ ground arith

  run-cron :
      (c : Cron) (rounds : List (ℤ × Wake))
      → count_fires (run lib rounds (cron c)) ≤ elapsed_rounds rounds
  unfolding run next count_fires elapsed_rounds
  run-cron c [] = omega arith
  run-cron c ((now, wake) ∷ rounds) = by wake (lib.next_cron c now) (run-cron c rounds)
    where
      by :
          (w : Wake) (o : Option ℤ)
          → count_fires (run lib rounds (cron c)) ≤ elapsed_rounds rounds
          → count_fires (on_next now w o (run lib rounds (cron c)))
            ≤ elapsed_rounds ((now, w) ∷ rounds)
      by elapsed none rest = omega arith
      by cancelled none rest = omega arith
      by elapsed (some at) rest = omega (arith, rest)
      by cancelled (some at) rest = omega arith

  -- A repeating schedule fires in every round up to the one that is cancelled, and with a positive
  -- interval the loop never goes on without a wait.
  run-interval :
      (d : ℤ) (rounds : List (ℤ × Wake))
      → pos 0 <ℤ d
      → (count_fires (run lib rounds (interval d)) ≡ elapsed_rounds rounds)
        × AllPositive (run lib rounds (interval d))
  unfolding run next count_fires elapsed_rounds
  run-interval d [] h = (refl, tt)
  run-interval d ((now, elapsed) ∷ rounds) h =
      let (fired, waits) = run-interval d rounds h in
      (ap suc fired, (wait_for-interval now d h, waits))
  run-interval d ((now, cancelled) ∷ rounds) h = (refl, (wait_for-interval now d h, tt))

  -- How often a schedule fires while `rounds` go by, and how it waits.
  abbrev pub Behaves : Schedule Cron → List (ℤ × Wake) → Type 0
  Behaves (interval d) rounds =
      (count_fires (run lib rounds (interval d)) ≡ elapsed_rounds rounds)
      × AllPositive (run lib rounds (interval d))
  Behaves (once at fired) rounds =
      count_fires (run lib rounds (once at fired))
      ≡ (if ltb 0 (elapsed_rounds rounds) then 1 else 0)
  Behaves (cron c) rounds = count_fires (run lib rounds (cron c)) ≤ elapsed_rounds rounds

  -- A schedule that ParseScheduleAt accepts, whatever the times and however the rounds end: an
  -- interval fires in every round up to a cancelled one, and never without a positive wait before it;
  -- a one-shot schedule fires exactly once, unless it is cancelled in its first round; a cron
  -- schedule fires at most once in a round.
  pub parse_schedule_at-Behaves :
      (s : String) (now boot : ℤ) (schedule : Schedule Cron) (rounds : List (ℤ × Wake))
      → parse_schedule_at lib s now boot ≡ parsed schedule
      → Behaves schedule rounds
  parse_schedule_at-Behaves s now boot schedule rounds h =
      by schedule (parse_schedule_at-IsUsable lib s now boot schedule h)
    where
      by : (sch : Schedule Cron) → IsUsable lib (trim_space s) now boot sch → Behaves sch rounds
      by (interval d) positive = run-interval d rounds positive
      by (once at fired) (fresh, d, rest) =
          subst (λ f. Behaves (once at f) rounds) (sym fresh) (run-once at rounds)
      by (cron c) read = run-cron c rounds
