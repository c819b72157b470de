-- ===== src/Timer/Loops.antt =====
-- Starting and stopping a timer agent: one loop at most, whatever is asked of it.
use gapi.Prelude.{
  ℕ, ◌≡◌, refl, sym, ap, ◌∙◌, String, Bool, not, List, [], ◌∷◌, Option, none, some, ◌==◌, ==_iff,
  filter, if◌then◌else◌,
}
use gapi.Prelude.Int.{ℤ}
use gapi.Timer.Schedule.{Library, Parsed, parsed, refused, parse_schedule}
use gapi.Timer.Agent.{
  TimerAgent, new_timer_agent, set_run_id, set_enabled, publish_status, cancel_loop, start_parsed,
  start_idle, start, stop_loop, stop, reset_loop, reset, reload,
}

-- What is asked of a timer agent, at a time and some seconds after the boot.
pub data Op : Type 0 where
  starts stops resets reloads : Op
  sets_run_id : String → Op
  sets_enabled : Bool → Op

module _ {Cron : Type 0} (lib : Library Cron) where
  unfoldable pub do_op : Op → ℤ → Option ℕ → TimerAgent → TimerAgent
  do_op starts now uptime ta = (start lib now uptime ta).0
  do_op stops now uptime ta = stop ta
  do_op resets now uptime ta = reset ta
  do_op reloads now uptime ta = (reload lib now uptime ta).0
  do_op (sets_run_id id) now uptime ta = set_run_id id ta
  do_op (sets_enabled v) now uptime ta = set_enabled v ta

  unfoldable pub do_ops : List (Op × ℤ × Option ℕ) → TimerAgent → TimerAgent
  unfolding do_op
  do_ops [] ta = ta
  do_ops ((op, now, uptime) ∷ ops) ta = do_ops ops (do_op op now uptime ta)

abbrev pub as_list : Option ℕ → List ℕ
as_list none = []
as_list (some n) = n ∷ []

-- The loop that is live is the one that `cancel` would end.
abbrev pub IsTracked : TimerAgent → Type 0
IsTracked ta = ta.live ≡ as_list ta.cancel

-- Cancelling the tracked loop leaves none.
cancelled_all : (n : ℕ) (live : List ℕ) → live ≡ n ∷ [] → filter (λ m. not (m == n)) live ≡ []
unfolding filter
cancelled_all n live h =
    ap (filter (λ m. not (m == n))) h
    ∙ ap (λ b. if b then n ∷ [] else []) (ap not ((==_iff n n).1 refl))

stop_loop-IsTracked :
    (o : Option ℕ) (ta : TimerAgent)
    → ta.live ≡ as_list o
    → ta.cancel ≡ o
    → IsTracked (stop_loop o ta)
unfolding publish_status cancel_loop
stop_loop-IsTracked none ta h e = h ∙ ap as_list (sym e)
stop_loop-IsTracked (some n) ta h e = cancelled_all n ta.live h

reset_loop-IsTracked :
    (o : Option ℕ) (ta : TimerAgent)
    → ta.live ≡ as_list o
    → ta.cancel ≡ o
    → IsTracked (reset_loop o ta)
unfolding cancel_loop
reset_loop-IsTracked none ta h e = h ∙ ap as_list (sym e)
reset_loop-IsTracked (some n) ta h e = cancelled_all n ta.live h

module _ {Cron : Type 0} (lib : Library Cron) where
  start_parsed-IsTracked :
      (p : Parsed Cron) (ta : TimerAgent)
      → IsTracked ta
      → ta.cancel ≡ none
      → IsTracked (start_parsed lib p ta).0
  unfolding publish_status
  start_parsed-IsTracked (refused e) ta h idle = h
  start_parsed-IsTracked (parsed s) ta h idle = ap (λ l. ta.contexts ∷ l) (h ∙ ap as_list idle)

  start_idle-IsTracked :
      (o : Option ℕ) (now : ℤ) (uptime : Option ℕ) (ta : TimerAgent)
      → IsTracked ta
      → ta.cancel ≡ o
      → IsTracked (start_idle lib o now uptime ta).0
  start_idle-IsTracked (some n) now uptime ta h e = h
  start_idle-IsTracked none now uptime ta h e =
      start_parsed-IsTracked (parse_schedule lib ta.schedule now uptime) ta h e

  do_op-IsTracked :
      (op : Op) (now : ℤ) (uptime : Option ℕ) (ta : TimerAgent)
      → IsTracked ta
      → IsTracked (do_op lib op now uptime ta)
  unfolding do_op start stop reset reload set_run_id set_enabled
  do_op-IsTracked starts now uptime ta h = start_idle-IsTracked ta.cancel now uptime ta h refl
  do_op-IsTracked stops now uptime ta h = stop_loop-IsTracked ta.cancel ta h refl
  do_op-IsTracked resets now uptime ta h = reset_loop-IsTracked ta.cancel ta h refl
  do_op-IsTracked reloads now uptime ta h =
      let stopped = stop_loop ta.cancel ta in
      start_idle-IsTracked stopped.cancel now uptime stopped
        (stop_loop-IsTracked ta.cancel ta h refl) refl
  do_op-IsTracked (sets_run_id id) now uptime ta h = h
  do_op-IsTracked (sets_enabled v) now uptime ta h = h

  do_ops-IsTracked :
      (ops : List (Op × ℤ × Option ℕ)) (ta : TimerAgent)
      → IsTracked ta
      → IsTracked (do_ops lib ops ta)
  unfolding do_ops
  do_ops-IsTracked [] ta h = h
  do_ops-IsTracked ((op, now, uptime) ∷ ops) ta h =
      do_ops-IsTracked ops (do_op lib op now uptime ta) (do_op-IsTracked op now uptime ta h)

  -- Whatever is asked of a new timer agent, and whenever: the loop that the agent would cancel is the
  -- only one that is live, and none is live if it would cancel none.
  pub do_ops_new-IsTracked :
      (ops : List (Op × ℤ × Option ℕ)) (path schedule lang : String)
      → IsTracked (do_ops lib ops (new_timer_agent path schedule lang))
  unfolding new_timer_agent
  do_ops_new-IsTracked ops path schedule lang = do_ops-IsTracked ops _ refl
