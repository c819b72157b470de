-- ===== src/Runner/Minded.antt =====
-- The slot of an agent, whatever happens and however its calls overlap: the program in it is about to
-- be stopped by a call, or waited for by one, or watched.
use gapi.Prelude.{
  ℕ, zero, suc, ◌≡◌, refl, ap, ◌∙◌, String, Bool, true, false, not, ◌&&◌, ◌||◌, List, [], ◌∷◌, ◌++◌,
  Option, none, some, ◌==◌, ==_iff, arith, if◌then◌else◌, same, Bool-cases, inl, inr,
}
use gapi.Limits.{Floats, Limit, limit, bad, parse_resource_spec}
use gapi.Runner.Control.{Effect, frame_seen, announced, published, beat, error, info}
use gapi.Runner.Agent.{
  Slot, empty, unstarted, running, adopted, ended, AdoptedWatch, GoAgent, publish,
  cleanup_after_exit, note_announced_state, note_frame_seen, Sockets, ensure_listener, arm,
}
use gapi.Runner.Calls.{
  Then, returns, stops_adopted, adopts, Call, idle, in_oneshot, in_stop, joining, in_stop_adopted,
  Answers, after_spawn, spawn, with_socket, with_limits, start_slot, start, holds, child_exited,
  stop_unspawned, stop, stop_slot,
}
use gapi.Runner.Adopted.{
  StopOutcome, adopted_stop_status, adopted_exited, settle, adopted_stopped, adopt_locked, join,
  go_on,
}
use gapi.Runner.Steps.{hear, watchers_act, adopted_act, drop_watchers, add_call, take_call, begun}
use gapi.Runner.Once.{watched, arm-SameRuns, rearm-SameRuns}
use gapi.Runner.Reported.{watched-filter, unheld-watchers_act, emptied-watchers_act}

abbrev pub is_stop : Call → Bool
is_stop (in_stop m rid) = true
is_stop idle = false
is_stop (in_oneshot m rid) = false
is_stop (joining w t) = false
is_stop (in_stop_adopted p e rid) = false

abbrev pub is_oneshot : ℕ → Call → Bool
is_oneshot n (in_oneshot m rid) = m == n
is_oneshot n idle = false
is_oneshot n (in_stop m rid) = false
is_oneshot n (joining w t) = false
is_oneshot n (in_stop_adopted p e rid) = false

unfoldable pub any_call : (Call → Bool) → List Call → Bool
any_call p [] = false
any_call p (c ∷ cs) = p c || any_call p cs

any_call-append :
    (p : Call → Bool) (cs : List Call) (c : Call)
    → any_call p (cs ++ c ∷ []) ≡ (any_call p cs || p c)
unfolding any_call
any_call-append p [] c = ground arith
any_call-append p (d ∷ cs) c = ground (arith, any_call-append p cs c)

pub any_call-add_call :
    (p : Call → Bool) (c : Call) (cs : List Call)
    → p idle ≡ false
    → any_call p (add_call c cs) ≡ (any_call p cs || p c)
any_call-add_call p idle cs h = ground (arith, h)
any_call-add_call p (in_oneshot m rid) cs h = any_call-append p cs (in_oneshot m rid)
any_call-add_call p (in_stop m rid) cs h = any_call-append p cs (in_stop m rid)
any_call-add_call p (joining w t) cs h = any_call-append p cs (joining w t)
any_call-add_call p (in_stop_adopted q e rid) cs h = any_call-append p cs (in_stop_adopted q e rid)

pub any_call-take_call :
    (p : Call → Bool) (k : ℕ) (cs : List Call)
    → p idle ≡ false
    → any_call p cs ≡ (p (take_call k cs).0 || any_call p (take_call k cs).1)
unfolding any_call take_call
any_call-take_call p k [] h = ground (arith, h)
any_call-take_call p zero (c ∷ cs) h = refl
any_call-take_call p (suc k) (c ∷ cs) h = ground (arith, any_call-take_call p k cs h)

-- The program of the number is not in the slot; or a Stop is under way; or its end is not taken for a
-- stop, and it is watched or waited for.
abbrev pub free_or_minded : ℕ → Slot → Bool → Bool → Bool → Bool → Bool
free_or_minded n cmd stopping has_watcher st os =
    not (holds n cmd) || (st || (not stopping && (has_watcher || os)))

module _ (n : ℕ) where
  abbrev pub Minded : GoAgent → Bool → Bool → Type 0
  Minded a st os = free_or_minded n a.cmd a.stopping (watched n a.watchers) st os ≡ true

  -- A part of a call that begins or goes on, with what the other calls are.
  abbrev pub Begun : GoAgent × Call → Bool → Bool → Type 0
  Begun x st os = Minded x.0 (st || is_stop x.1) (os || is_oneshot n x.1)

  module _ (st os : Bool) where
    spawn-Begun :
        (env : Answers) (a : GoAgent)
        → Minded a st os
        → Begun ((spawn env a).0, (spawn env a).1) st os
    unfolding spawn after_spawn publish watched
    spawn-Begun env a h = ground (arith, h)

    pub stop-Begun : (a : GoAgent) → Minded a st os → Begun (stop a) st os
    unfolding stop stop_unspawned
    stop-Begun a h = by a.cmd refl
      where
        by : (sl : Slot) → a.cmd ≡ sl → Begun (stop_slot sl a) st os
        by empty e = ground (arith, h, e)
        by unstarted e = ground (arith, h, e)
        by (running m) e = ground (arith, h, e)

    pub start-Begun :
        (fl : Floats) (env : Answers) (a : GoAgent)
        → Minded a st os
        → Begun (begun fl (start fl env a)) st os
    unfolding start ensure_listener
    start-Begun fl env a h = by a.cmd
      where
        b : GoAgent
        b = record a { armed = false }

        bound : (x : GoAgent × Bool) → Minded x.0 st os → Begun (begun fl (with_socket env x)) st os
        bound (d, true) g = spawn-Begun env d g
        bound (d, false) g = ground (arith, g)

        limited : (l : Limit (fl.float × ℕ)) → Begun (begun fl (with_limits fl env l b)) st os
        limited (bad e) = ground (arith, h)
        limited (limit l) = elim (Bool-cases (not (same a.listen_spec ""))) [
          | inl socket ↦ rw socket (bound (ensure_listener env.sockets b) (ground (arith, h)))
          | inr none_asked ↦ rw none_asked (spawn-Begun env b h)
        ]

        by : (sl : Slot) → Begun (begun fl (start_slot fl env sl b)) st os
        by empty = limited (parse_resource_spec fl a.cpu_limit a.mem_limit)
        by unstarted = limited (parse_resource_spec fl a.cpu_limit a.mem_limit)
        by (running m) = ground (arith, h)

    adopted_exited-Minded :
        (pid epoch : ℕ) (a : GoAgent) → Minded a st os → Minded (adopted_exited pid epoch a) st os
    unfolding adopted_exited publish cleanup_after_exit
    adopted_exited-Minded pid epoch a h = ground (arith, h)

    pub adopted_act-Minded :
        (k : ℕ) (ws : List AdoptedWatch) (a : GoAgent)
        → Minded a st os
        → Minded (adopted_act k ws a) st os
    unfolding adopted_act
    adopted_act-Minded k [] a h = h
    adopted_act-Minded k (w ∷ ws) a h =
        by (w.number == k)
          (adopted_act-Minded k ws (adopted_exited w.pid w.epoch a)
            (adopted_exited-Minded w.pid w.epoch a h))
          (adopted_act-Minded k ws a h)
      where
        by :
            (b : Bool)
            → Minded (adopted_act k ws (adopted_exited w.pid w.epoch a)) st os
            → Minded (adopted_act k ws a) st os
            → Minded
                (if b
                  then adopted_act k ws (adopted_exited w.pid w.epoch a)
                  else adopted_act k ws a)
                st
                os
        by true p q = p
        by false p q = q

    pub join-Minded : (w : Option ℕ) (a : GoAgent) → Minded a st os → Minded (join w a) st os
    join-Minded none a h = h
    join-Minded (some k) a h = h

    pub go_on-Begun :
        (t : Then) (epoch : Option ℕ) (a : GoAgent) → Minded a st os → Begun (go_on t epoch a) st os
    unfolding adopt_locked
    go_on-Begun returns epoch a h = ground (arith, h)
    go_on-Begun (stops_adopted p e rid) epoch a h = ground (arith, h)
    go_on-Begun (adopts p) none a h = refl
    go_on-Begun (adopts p) (some e) a h = refl

    pub adopted_stopped-Minded :
        (net : Sockets) (rid : String) (o : StopOutcome) (a : GoAgent)
        → Minded a st os
        → Minded (adopted_stopped net rid o a) st os
    unfolding adopted_stopped publish cleanup_after_exit
    adopted_stopped-Minded net rid o a h = by (adopted_stop_status o)
      where
        by : (status : Option String) → Minded (settle net rid status a) st os
        by none = ground (arith, h)
        by (some state) =
            let b = cleanup_after_exit (
              publish (ended adopted state rid)
                (record a { adopted_pid = 0; adopted_epoch = 0 })) in
            ground (arith, rearm-SameRuns n net b)

    same-Minded :
        (a b : GoAgent)
        → b.cmd ≡ a.cmd
        → b.stopping ≡ a.stopping
        → watched n b.watchers ≡ watched n a.watchers
        → Minded a st os
        → Minded b st os
    same-Minded a b e1 e2 e3 h = ground (arith, h, e1, e2, e3)

    pub hear-Minded : (e : Effect) (a : GoAgent) → Minded a st os → Minded (hear e a) st os
    unfolding hear note_frame_seen note_announced_state publish
    hear-Minded frame_seen a h = ground (arith, h)
    hear-Minded (announced state rid) a h = h
    hear-Minded (published state message rid) a h = ground (arith, h)
    hear-Minded (beat hb) a h = h
    hear-Minded (error msg) a h = h
    hear-Minded (info msg) a h = h

    pub arm-Minded : (net : Sockets) (a : GoAgent) → Minded a st os → Minded (arm net a) st os
    arm-Minded net a h =
        let (e1, e2, e3, e4, e5) = arm-SameRuns n net a in
        same-Minded a (arm net a) e1 e2 (ap (watched n) e3) h

  -- What the watchers of a program leave: the watchers and the flag of a stop are as they were, and
  -- nothing comes into the slot.
  watchers_act-Kept :
      (m : ℕ) (ws : List (ℕ × String)) (a : GoAgent)
      → ((watchers_act m ws a).stopping ≡ a.stopping)
        × ((watchers_act m ws a).watchers ≡ a.watchers)
        × ((not (holds n (watchers_act m ws a).cmd) || holds n a.cmd) ≡ true)
  unfolding watchers_act child_exited publish cleanup_after_exit
  watchers_act-Kept m [] a = (refl, refl, ground arith)
  watchers_act-Kept m ((k, rid) ∷ ws) a =
      let (s1, w1, c1) = watchers_act-Kept m ws (child_exited k rid a) in
      let (s2, w2, c2) = watchers_act-Kept m ws a in
      let before : ((child_exited k rid a).stopping ≡ a.stopping)
          × ((child_exited k rid a).watchers ≡ a.watchers)
          × ((not (holds n (child_exited k rid a).cmd) || holds n a.cmd) ≡ true) =
        (ground arith, ground arith, ground arith) in
      by (k == m) (s1 ∙ before.0, w1 ∙ before.1, ground (arith, c1, before.2)) (s2, w2, c2)
    where
      Kept : GoAgent → Type 0
      Kept b =
          (b.stopping ≡ a.stopping)
          × (b.watchers ≡ a.watchers)
          × ((not (holds n b.cmd) || holds n a.cmd) ≡ true)

      by :
          (b : Bool)
          → Kept (watchers_act m ws (child_exited k rid a))
          → Kept (watchers_act m ws a)
          → Kept (if b then watchers_act m ws (child_exited k rid a) else watchers_act m ws a)
      by true p q = p
      by false p q = q

  -- The watchers of the program itself empty its slot, unless a Stop is under way or it is waited
  -- for; those of another leave it alone.
  pub child_exits-Minded :
      (m : ℕ) (a : GoAgent) (st os : Bool)
      → Minded a st os
      → Minded (watchers_act m a.watchers (drop_watchers m a)) st os
  child_exits-Minded m a st os h =
      let d = drop_watchers m a in
      let (s1, w1, c1) = watchers_act-Kept m a.watchers d in
      let w2 = ap (watched n) w1 ∙ watched-filter n m a.watchers in by (m == n) refl (s1, w2, c1)
    where
      b : GoAgent
      b = watchers_act m a.watchers (drop_watchers m a)

      empties :
          m == n ≡ true → a.stopping ≡ false → watched n a.watchers ≡ true → holds n b.cmd ≡ false
      empties e s w =
          ap (λ k. holds n (watchers_act k a.watchers (drop_watchers k a)).cmd) ((==_iff m n).0 e)
          ∙ emptied-watchers_act n a.watchers (drop_watchers n a) s w

      by :
          (hit : Bool)
          → (m == n) ≡ hit
          → (b.stopping ≡ a.stopping)
            × (watched n b.watchers ≡ (watched n a.watchers && not (m == n)))
            × ((not (holds n b.cmd) || holds n a.cmd) ≡ true)
          → Minded b st os
      by false e (s1, w1, c1) = ground (arith, h, e, s1, w1, c1)
      by true e (s1, w1, c1) = ground (arith, h, e, s1, w1, c1, empties e)

  pub emptied-Minded : (a : GoAgent) (st os : Bool) → a.cmd ≡ empty → Minded a st os
  emptied-Minded a st os e = ground (arith, e)

  -- Without a call, the watchers of the program leave the slot without it.
  pub emptied-child_exits :
      (a : GoAgent)
      → Minded a false false
      → holds n (watchers_act n a.watchers (drop_watchers n a)).cmd ≡ false
  emptied-child_exits a h = elim (Bool-cases (holds n a.cmd)) [
    | inl held ↦
        emptied-watchers_act n a.watchers (drop_watchers n a) (ground (arith, h, held))
          (ground (arith, h, held))
    | inr free ↦ unheld-watchers_act n n a.watchers (drop_watchers n a) free
  ]
