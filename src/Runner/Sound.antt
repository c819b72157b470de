-- ===== src/Runner/Sound.antt =====
-- Series of what happens to an agent: the ends that it reports, and its slot.
use gapi.Prelude.{
  ℕ, ◌≤◌, ◌≡◌, refl, sym, String, Bool, true, false, not, ◌||◌, List, [], ◌∷◌, some, ◌==◌, ==_iff,
  arith, count_p,
}
use mathlib.Core.Path.{subst}
use gapi.Limits.{Floats}
use gapi.Runner.Agent.{
  GoAgent, Sockets, ensure_listener, new_go_agent, set_run_id, set_enabled, on_traffic,
}
use gapi.Runner.Calls.{
  Call, idle, in_oneshot, in_stop, joining, returns, stops_adopted, adopts, in_stop_adopted, start,
  holds, stop, reset,
}
use gapi.Runner.Adopted.{adopt, join}
use gapi.Runner.Steps.{
  Op, starts, oneshot_ends, stops, resets, stop_ends, restores, joins, stop_adopted_ends,
  child_exits, adopted_exits, hears, sets_run_id, sets_enabled, sets_handler, arms, traffic,
  Session, watchers_act, drop_watchers, begun, do_op, do_ops, begins, no_calls, calls_apart,
}
use gapi.Runner.Once.{reported, watched, waits_for, AgentOk, CallOk}
use gapi.Runner.Ends.{SessionOk, start-SessionOk, stop-SessionOk, reset-SessionOk}
use gapi.Runner.Minded.{Minded, any_call, is_stop, is_oneshot, emptied-child_exits}
use gapi.Runner.Released.{IsMinded, do_ops-IsMinded}
use gapi.Runner.Reported.{
  IsSound, CallsOk, keep-CallsOk, begin-IsSound, end_oneshot-IsSound, end_stop-IsSound,
  end_join-IsSound, end_stop_adopted-IsSound, join-SessionOk, adopted_act-SessionOk, hear-SessionOk,
  arm-SessionOk, watchers_act-SessionOk, watched-filter, watchers_act-AgentOk, unheld-watchers_act,
  emptied-watchers_act,
}

module _ (n : ℕ) where
  -- The watchers that act are gone, which no call but none minds.
  drop_watchers-SessionOk :
      (m : ℕ) (c : Call) (a : GoAgent)
      → SessionOk n (a, c)
      → (holds n a.cmd ≡ true → c ≡ idle → m == n ≡ false)
      → SessionOk n (drop_watchers m a, c)
  drop_watchers-SessionOk m idle a (h, g) k = (
    ground (arith, h, watched-filter n m a.watchers),
    ground (arith, g, k, watched-filter n m a.watchers),
  )
  drop_watchers-SessionOk m (in_oneshot i rid) a (h, g) k = (
    ground (arith, h, watched-filter n m a.watchers),
    ground (arith, g, watched-filter n m a.watchers),
  )
  drop_watchers-SessionOk m (in_stop i rid) a (h, g) k =
      (ground (arith, h, watched-filter n m a.watchers), g)
  drop_watchers-SessionOk m (joining w returns) a (h, g) k =
      (ground (arith, h, watched-filter n m a.watchers), g)
  drop_watchers-SessionOk m (joining w (stops_adopted p e rid)) a (h, g) k =
      (ground (arith, h, watched-filter n m a.watchers), g)
  drop_watchers-SessionOk m (joining w (adopts p)) a (h, g) k =
      (ground (arith, h, watched-filter n m a.watchers), g)
  drop_watchers-SessionOk m (in_stop_adopted p e rid) a (h, g) k =
      (ground (arith, h, watched-filter n m a.watchers), g)

  -- No call waits for a program that has a watcher.
  unawaited :
      (c : Call) (a : GoAgent) → CallOk n c a → watched n a.watchers ≡ true → waits_for n c ≡ false
  unawaited idle a g w = refl
  unawaited (in_oneshot m rid) a g w = ground (arith, g, w)
  unawaited (in_stop m rid) a g w = refl
  unawaited (joining i t) a g w = refl
  unawaited (in_stop_adopted p e rid) a g w = refl

  acted-SessionOk :
      (m : ℕ) (c : Call) (a : GoAgent)
      → SessionOk n (a, c)
      → (holds n a.cmd ≡ true → c ≡ idle → m == n ≡ false)
      → SessionOk n (watchers_act m a.watchers (drop_watchers m a), c)
  acted-SessionOk m c a (h, g) k =
      watchers_act-SessionOk n m a.watchers c (drop_watchers m a) (λ e w. unawaited c a g w)
        (drop_watchers-SessionOk m c a (h, g) k)

  -- Without a call, the watcher of a program leaves the slot without it.
  emptied :
      (m : ℕ) (a : GoAgent)
      → CallOk n idle a
      → m == n ≡ true
      → holds n (watchers_act m a.watchers (drop_watchers m a)).cmd ≡ false
  emptied m a g e =
      subst (λ i. holds n (watchers_act i a.watchers (drop_watchers i a)).cmd ≡ false)
        (sym ((==_iff m n).0 e)) (by (holds n a.cmd) refl)
    where
      by :
          (b : Bool)
          → holds n a.cmd ≡ b
          → holds n (watchers_act n a.watchers (drop_watchers n a)).cmd ≡ false
      by true held =
          emptied-watchers_act n a.watchers (drop_watchers n a) (ground (arith, g, held))
            (ground (arith, g, held))
      by false free = unheld-watchers_act n n a.watchers (drop_watchers n a) free

  child_exits-SessionOk :
      (m : ℕ) (c : Call) (a : GoAgent)
      → SessionOk n (a, c)
      → SessionOk n (watchers_act m a.watchers (drop_watchers m a), c)
  child_exits-SessionOk m idle a (h, g) = by (m == n) refl
    where
      by :
          (b : Bool)
          → (m == n) ≡ b
          → SessionOk n (watchers_act m a.watchers (drop_watchers m a), idle)
      by true e =
          let dropped : AgentOk n (drop_watchers m a) =
            ground (arith, h, watched-filter n m a.watchers) in
          (
            watchers_act-AgentOk n m a.watchers (drop_watchers m a) dropped,
            ground (arith, emptied m a g e),
          )
      by false e = acted-SessionOk m idle a (h, g) (λ held i. e)
  child_exits-SessionOk m (in_oneshot i rid) a h =
      acted-SessionOk m (in_oneshot i rid) a h (λ e f. absurd cc)
  child_exits-SessionOk m (in_stop i rid) a h =
      acted-SessionOk m (in_stop i rid) a h (λ e f. absurd cc)
  child_exits-SessionOk m (joining w t) a h = acted-SessionOk m (joining w t) a h (λ e f. absurd cc)
  child_exits-SessionOk m (in_stop_adopted p e rid) a h =
      acted-SessionOk m (in_stop_adopted p e rid) a h (λ f i. absurd cc)

  module _ (fl : Floats) where
    do_op-IsSound :
        (op : Op) (s : Session)
        → (not (begins op) || no_calls s.calls) ≡ true
        → IsSound n s
        → IsSound n (do_op fl op s)
    unfolding do_op set_run_id set_enabled on_traffic adopt
    do_op-IsSound (starts env) s alone h =
        begin-IsSound n s.agent s.calls (begun fl (start fl env s.agent)) alone h
          (λ p q. start-SessionOk n fl env s.agent p q)
    do_op-IsSound (oneshot_ends k ok) s alone h = end_oneshot-IsSound n ok k s h
    do_op-IsSound stops s alone h =
        begin-IsSound n s.agent s.calls (stop s.agent) alone h (λ p q. stop-SessionOk n s.agent p q)
    do_op-IsSound resets s alone h =
        begin-IsSound n s.agent s.calls (reset s.agent) alone h
          (λ p q. reset-SessionOk n s.agent p q)
    do_op-IsSound (stop_ends k net) s alone h = end_stop-IsSound n net k s h
    do_op-IsSound (restores pid) s alone h =
        begin-IsSound n s.agent s.calls (adopt pid s.agent) alone h (λ p q. (p, refl))
    do_op-IsSound (joins k epoch) s alone h = end_join-IsSound n epoch k s h
    do_op-IsSound (stop_adopted_ends k o net) s alone h = end_stop_adopted-IsSound n o net k s h
    do_op-IsSound (child_exits m) s alone h =
        keep-CallsOk n s.agent (do_op fl (child_exits m) s).agent s.calls
          (λ c p. child_exits-SessionOk m c s.agent p) h
    do_op-IsSound (adopted_exits k) s alone h =
        keep-CallsOk n s.agent (do_op fl (adopted_exits k) s).agent s.calls
          (λ c p.
            adopted_act-SessionOk n k s.agent.adopted_watchers c (join (some k) s.agent)
              (join-SessionOk n (some k) c s.agent p))
          h
    do_op-IsSound (hears e) s alone h =
        keep-CallsOk n s.agent (do_op fl (hears e) s).agent s.calls
          (λ c p. hear-SessionOk n e c s.agent p) h
    do_op-IsSound (sets_run_id id) s alone h =
        keep-CallsOk n s.agent (do_op fl (sets_run_id id) s).agent s.calls (λ c p. p) h
    do_op-IsSound (sets_enabled v) s alone h =
        keep-CallsOk n s.agent (do_op fl (sets_enabled v) s).agent s.calls (λ c p. p) h
    do_op-IsSound (sets_handler v) s alone h =
        keep-CallsOk n s.agent (do_op fl (sets_handler v) s).agent s.calls (λ c p. p) h
    do_op-IsSound (arms net) s alone h =
        keep-CallsOk n s.agent (do_op fl (arms net) s).agent s.calls
          (λ c p. arm-SessionOk n net c s.agent p) h
    do_op-IsSound traffic s alone h =
        keep-CallsOk n s.agent (do_op fl traffic s).agent s.calls (λ c p. p) h

    do_ops-IsSound :
        (ops : List Op) (s : Session)
        → calls_apart fl ops s ≡ true
        → IsSound n s
        → IsSound n (do_ops fl ops s)
    unfolding do_ops calls_apart
    do_ops-IsSound [] s apart h = h
    do_ops-IsSound (op ∷ ops) s apart h =
        do_ops-IsSound ops (do_op fl op s) (ground arith) (do_op-IsSound op s (ground arith) h)

IsSound-le : (n : ℕ) (a : GoAgent) (cs : List Call) → CallsOk n a cs → reported n a.reports ≤ 1
IsSound-le n a [] h = ground (arith, h.0)
IsSound-le n a (c ∷ []) h = ground (arith, h.0)
IsSound-le n a (c ∷ d ∷ cs) h = absurd h

-- A new agent, with no call under way.
abbrev pub new_session : Sockets → Bool → String → String → String → Bool → Session
new_session net oneshot cpu mem spec has_bus = record {
  agent = new_go_agent net oneshot cpu mem spec has_bus;
  calls = [];
}

new-IsSound :
    (n : ℕ) (net : Sockets) (oneshot : Bool) (cpu mem spec : String) (has_bus : Bool)
    → IsSound n (new_session net oneshot cpu mem spec has_bus)
unfolding new_go_agent ensure_listener watched reported count_p
new-IsSound n net oneshot cpu mem spec has_bus = (ground arith, ground arith)

-- Whatever is asked of a new agent, in any order of calls, exits and frames, as long as no call begins
-- while another is under way: of each program that it spawns, the supervisor reports the end once at
-- most.
pub reported-do_ops :
    (fl : Floats) (n : ℕ) (net : Sockets) (oneshot : Bool) (cpu mem spec : String) (has_bus : Bool)
    (ops : List Op)
    → calls_apart fl ops (new_session net oneshot cpu mem spec has_bus) ≡ true
    → reported n (do_ops fl ops (new_session net oneshot cpu mem spec has_bus)).agent.reports ≤ 1
reported-do_ops fl n net oneshot cpu mem spec has_bus ops apart =
    let s = new_session net oneshot cpu mem spec has_bus in
    let t = do_ops fl ops s in
    IsSound-le n t.agent t.calls
      (do_ops-IsSound n fl ops s apart (new-IsSound n net oneshot cpu mem spec has_bus))

new-IsMinded :
    (n : ℕ) (net : Sockets) (oneshot : Bool) (cpu mem spec : String) (has_bus : Bool)
    → IsMinded n (new_session net oneshot cpu mem spec has_bus)
unfolding new_go_agent ensure_listener
new-IsMinded n net oneshot cpu mem spec has_bus = ground arith

-- Whatever has been asked of a new agent, also by calls that overlap: if no call is under way, a program
-- does not keep the slot once the watcher of its exit has acted.
pub holds-child_exits :
    (fl : Floats) (n : ℕ) (net : Sockets) (oneshot : Bool) (cpu mem spec : String) (has_bus : Bool)
    (ops : List Op)
    → (do_ops fl ops (new_session net oneshot cpu mem spec has_bus)).calls ≡ []
    → holds n
        (do_op fl
          (child_exits n)
          (do_ops fl ops (new_session net oneshot cpu mem spec has_bus))).agent.cmd
      ≡ false
unfolding do_op any_call
holds-child_exits fl n net oneshot cpu mem spec has_bus ops no_call =
    let s = new_session net oneshot cpu mem spec has_bus in
    let t = do_ops fl ops s in
    let h = do_ops-IsMinded n fl ops s (new-IsMinded n net oneshot cpu mem spec has_bus) in
    emptied-child_exits n t.agent
      (subst (λ cs. Minded n t.agent (any_call is_stop cs) (any_call (is_oneshot n) cs)) no_call h)
