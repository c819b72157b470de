-- ===== src/Runner/Reported.antt =====
-- What each operation does to the reports of an agent, with one call at most under way.
use gapi.Prelude.{
  ℕ, zero, suc, ◌≡◌, refl, ap, String, Bool, true, false, not, ◌&&◌, List, [], ◌∷◌, Option, none,
  some, ◌==◌, arith, filter, if◌then◌else◌,
}
use gapi.Runner.Control.{Effect, frame_seen, announced, published, beat, error, info}
use gapi.Runner.Agent.{
  said, AdoptedWatch, GoAgent, publish, cleanup_after_exit, note_announced_state, note_frame_seen,
  Sockets, arm,
}
use gapi.Runner.Calls.{
  Call, idle, in_oneshot, in_stop, joining, in_stop_adopted, holds, child_exited, oneshot_ended,
}
use gapi.Runner.Adopted.{StopOutcome, adopted_exited, join, go_on}
use gapi.Runner.Steps.{
  hear, to_upper, Session, session, no_calls, take_call, watchers_act, adopted_act, end_oneshot,
  end_stop, end_join, end_stop_adopted,
}
use gapi.Runner.Once.{
  reported, watched, waits_for, AgentOk, CallOk, reported-append, child_exited-AgentOk,
  child_exited-CallOk, oneshot_ended-AgentOk, arm-SameRuns,
}
use gapi.Runner.Ends.{
  SessionOk, stopped-SessionOk, adopted_exited-AgentOk, adopted_exited-CallOk,
  adopted_stopped-SessionOk, go_on-SessionOk,
}

module _ (n : ℕ) where
  -- One call at most is under way, and the agent is in order with it.
  abbrev pub CallsOk : GoAgent → List Call → Type 0
  CallsOk a [] = SessionOk n (a, idle)
  CallsOk a (c ∷ []) = SessionOk n (a, c)
  CallsOk a (c ∷ d ∷ cs) = ⊥

  abbrev pub IsSound : Session → Type 0
  IsSound s = CallsOk s.agent s.calls

  pub keep-CallsOk :
      (a b : GoAgent) (cs : List Call)
      → ((c : Call) → SessionOk n (a, c) → SessionOk n (b, c))
      → CallsOk a cs
      → CallsOk b cs
  keep-CallsOk a b [] keep h = keep idle h
  keep-CallsOk a b (c ∷ []) keep h = keep c h
  keep-CallsOk a b (c ∷ d ∷ cs) keep h = h

  session-IsSound : (a : GoAgent) (c : Call) → SessionOk n (a, c) → IsSound (session [] (a, c))
  session-IsSound a idle h = h
  session-IsSound a (in_oneshot m rid) h = h
  session-IsSound a (in_stop m rid) h = h
  session-IsSound a (joining w t) h = h
  session-IsSound a (in_stop_adopted p e rid) h = h

  pub begin-IsSound :
      (a : GoAgent) (cs : List Call) (x : GoAgent × Call)
      → no_calls cs ≡ true
      → CallsOk a cs
      → (AgentOk n a → CallOk n idle a → SessionOk n x)
      → IsSound (session cs x)
  begin-IsSound a [] x alone (h, g) k = session-IsSound x.0 x.1 (k h g)
  begin-IsSound a (c ∷ cs) x alone h k = absurd cc

  -- The call that ends or goes on is the only one, or there is none of that number.
  take_one :
      (k : ℕ) (a : GoAgent) (cs : List Call) (Q : Call × List Call → Type 0)
      → CallsOk a cs
      → ((rest : List Call) → Q (idle, rest))
      → ((c : Call) → SessionOk n (a, c) → Q (c, []))
      → Q (take_call k cs)
  unfolding take_call
  take_one k a [] Q h unchanged only = unchanged []
  take_one zero a (c ∷ []) Q h unchanged only = only c h
  take_one (suc k) a (c ∷ []) Q h unchanged only = unchanged (c ∷ [])
  take_one zero a (c ∷ d ∷ cs) Q h unchanged only = absurd h
  take_one (suc k) a (c ∷ d ∷ cs) Q h unchanged only = absurd h

  pub end_oneshot-IsSound :
      (ok : Bool) (k : ℕ) (s : Session)
      → IsSound s
      → IsSound (end_oneshot ok s (take_call k s.calls))
  unfolding oneshot_ended cleanup_after_exit
  end_oneshot-IsSound ok k s h =
      take_one k s.agent s.calls (λ x. IsSound (end_oneshot ok s x)) h (λ rest. h) by
    where
      by : (c : Call) → SessionOk n (s.agent, c) → IsSound (end_oneshot ok s (c, []))
      by (in_oneshot m rid) (p, q) = (oneshot_ended-AgentOk n ok m rid s.agent p q, refl)
      by idle p = h
      by (in_stop m rid) p = h
      by (joining w t) p = h
      by (in_stop_adopted q e rid) p = h

  pub end_stop-IsSound :
      (net : Sockets) (k : ℕ) (s : Session)
      → IsSound s
      → IsSound (end_stop net s (take_call k s.calls))
  end_stop-IsSound net k s h =
      take_one k s.agent s.calls (λ x. IsSound (end_stop net s x)) h (λ rest. h) by
    where
      by : (c : Call) → SessionOk n (s.agent, c) → IsSound (end_stop net s (c, []))
      by (in_stop m rid) (p, q) = stopped-SessionOk n net m rid s.agent p q
      by idle p = h
      by (in_oneshot m rid) p = h
      by (joining w t) p = h
      by (in_stop_adopted q e rid) p = h

  pub join-SessionOk :
      (w : Option ℕ) (c : Call) (a : GoAgent) → SessionOk n (a, c) → SessionOk n (join w a, c)
  join-SessionOk none c a h = h
  join-SessionOk (some k) c a h = h

  pub end_join-IsSound :
      (epoch : Option ℕ) (k : ℕ) (s : Session)
      → IsSound s
      → IsSound (end_join epoch s (take_call k s.calls))
  end_join-IsSound epoch k s h =
      take_one k s.agent s.calls (λ x. IsSound (end_join epoch s x)) h (λ rest. h) by
    where
      by : (c : Call) → SessionOk n (s.agent, c) → IsSound (end_join epoch s (c, []))
      by (joining w t) p =
          let (h', g') = join-SessionOk w (joining w t) s.agent p in
          let x = go_on t epoch (join w s.agent) in
          session-IsSound x.0 x.1 (go_on-SessionOk n w t epoch (join w s.agent) h' g')
      by idle p = h
      by (in_oneshot m rid) p = h
      by (in_stop m rid) p = h
      by (in_stop_adopted q e rid) p = h

  pub end_stop_adopted-IsSound :
      (o : StopOutcome) (net : Sockets) (k : ℕ) (s : Session)
      → IsSound s
      → IsSound (end_stop_adopted o net s (take_call k s.calls))
  end_stop_adopted-IsSound o net k s h =
      take_one k s.agent s.calls (λ x. IsSound (end_stop_adopted o net s x)) h (λ rest. h) by
    where
      by : (c : Call) → SessionOk n (s.agent, c) → IsSound (end_stop_adopted o net s (c, []))
      by (in_stop_adopted q e rid) (p, g) = adopted_stopped-SessionOk n net rid o q e s.agent p g
      by idle p = h
      by (in_oneshot m rid) p = h
      by (in_stop m rid) p = h
      by (joining w t) p = h

  pub adopted_act-SessionOk :
      (k : ℕ) (ws : List AdoptedWatch) (c : Call) (a : GoAgent)
      → SessionOk n (a, c)
      → SessionOk n (adopted_act k ws a, c)
  unfolding adopted_act
  adopted_act-SessionOk k [] c a h = h
  adopted_act-SessionOk k (w ∷ ws) c a (h, g) =
      by (w.number == k)
        (adopted_act-SessionOk k ws c (adopted_exited w.pid w.epoch a)
          (adopted_exited-AgentOk n w.pid w.epoch a h, adopted_exited-CallOk n w.pid w.epoch c a g))
        (adopted_act-SessionOk k ws c a (h, g))
    where
      by :
          (b : Bool)
          → SessionOk n (adopted_act k ws (adopted_exited w.pid w.epoch a), c)
          → SessionOk n (adopted_act k ws a, c)
          → SessionOk n (
            (if b then adopted_act k ws (adopted_exited w.pid w.epoch a) else adopted_act k ws a),
            c,
          )
      by true p q = p
      by false p q = q

  -- What touches neither the slot nor the watchers, and reports no end, changes nothing of this.
  pub same-SessionOk :
      (c : Call) (a b : GoAgent)
      → b.cmd ≡ a.cmd
      → b.stopping ≡ a.stopping
      → watched n b.watchers ≡ watched n a.watchers
      → b.spawns ≡ a.spawns
      → reported n b.reports ≡ reported n a.reports
      → SessionOk n (a, c)
      → SessionOk n (b, c)
  same-SessionOk c a b e1 e2 e3 e4 e5 (h, g) = (ground (arith, h, e1, e3, e4, e5), cc)

  pub hear-SessionOk :
      (e : Effect) (c : Call) (a : GoAgent) → SessionOk n (a, c) → SessionOk n (hear e a, c)
  unfolding hear note_frame_seen note_announced_state publish
  hear-SessionOk frame_seen c a h =
      same-SessionOk c a (note_frame_seen a) (ground arith) (ground arith) (ground arith)
        (ground arith) (ground arith) h
  hear-SessionOk (announced state rid) c a h = h
  hear-SessionOk (published state message rid) c a h =
      let b = publish (said (to_upper state) rid) a in
      same-SessionOk c a b (ground arith) (ground arith) (ground arith) (ground arith)
        (ground (arith, reported-append n a.reports (said (to_upper state) rid))) h
  hear-SessionOk (beat hb) c a h = h
  hear-SessionOk (error msg) c a h = h
  hear-SessionOk (info msg) c a h = h

  pub arm-SessionOk :
      (net : Sockets) (c : Call) (a : GoAgent) → SessionOk n (a, c) → SessionOk n (arm net a, c)
  arm-SessionOk net c a h =
      let (e1, e2, e3, e4, e5) = arm-SameRuns n net a in
      same-SessionOk c a (arm net a) e1 e2 (ap (watched n) e3) e4 (ap (reported n) e5) h

  pub watchers_act-SessionOk :
      (m : ℕ) (ws : List (ℕ × String)) (c : Call) (a : GoAgent)
      → (m == n ≡ true → watched n ws ≡ true → waits_for n c ≡ false)
      → SessionOk n (a, c)
      → SessionOk n (watchers_act m ws a, c)
  unfolding watchers_act watched
  watchers_act-SessionOk m [] c a w h = h
  watchers_act-SessionOk m ((k, rid) ∷ ws) c a w (h, g) =
      by (k == m) refl
        (λ ok.
          watchers_act-SessionOk m ws c (child_exited k rid a) (λ e f. w e (ground (arith, f)))
            (child_exited-AgentOk n k rid a h, child_exited-CallOk n k rid c a h g ok))
        (watchers_act-SessionOk m ws c a (λ e f. w e (ground (arith, f))) (h, g))
    where
      by :
          (b : Bool)
          → (k == m) ≡ b
          → ((k == n ≡ true → waits_for n c ≡ false)
              → SessionOk n (watchers_act m ws (child_exited k rid a), c))
          → SessionOk n (watchers_act m ws a, c)
          → SessionOk n
              ((if b then watchers_act m ws (child_exited k rid a) else watchers_act m ws a), c)
      by true e p q = p (λ f. w (ground (arith, e, f)) (ground (arith, f)))
      by false e p q = q

  pub watched-filter :
      (m : ℕ) (ws : List (ℕ × String))
      → watched n (filter (λ (w : ℕ × String). not (w.0 == m)) ws) ≡ (watched n ws && not (m == n))
  unfolding watched filter
  watched-filter m [] = refl
  watched-filter m ((k, rid) ∷ ws) = ground (arith, watched-filter m ws)

  pub watchers_act-AgentOk :
      (m : ℕ) (ws : List (ℕ × String)) (a : GoAgent) → AgentOk n a → AgentOk n (watchers_act m ws a)
  unfolding watchers_act
  watchers_act-AgentOk m [] a h = h
  watchers_act-AgentOk m ((k, rid) ∷ ws) a h =
      by (k == m)
        (watchers_act-AgentOk m ws (child_exited k rid a) (child_exited-AgentOk n k rid a h))
        (watchers_act-AgentOk m ws a h)
    where
      by :
          (b : Bool)
          → AgentOk n (watchers_act m ws (child_exited k rid a))
          → AgentOk n (watchers_act m ws a)
          → AgentOk n (if b then watchers_act m ws (child_exited k rid a) else watchers_act m ws a)
      by true p q = p
      by false p q = q

-- A program without the slot does not come into it.
pub unheld-watchers_act :
    (n m : ℕ) (ws : List (ℕ × String)) (a : GoAgent)
    → holds n a.cmd ≡ false
    → holds n (watchers_act m ws a).cmd ≡ false
unfolding watchers_act child_exited publish cleanup_after_exit
unheld-watchers_act n m [] a h = h
unheld-watchers_act n m ((k, rid) ∷ ws) a h =
    by (k == m) (unheld-watchers_act n m ws (child_exited k rid a) (ground (arith, h)))
      (unheld-watchers_act n m ws a h)
  where
    by :
        (b : Bool)
        → holds n (watchers_act m ws (child_exited k rid a)).cmd ≡ false
        → holds n (watchers_act m ws a).cmd ≡ false
        → holds n (if b then watchers_act m ws (child_exited k rid a) else watchers_act m ws a).cmd
          ≡ false
    by true p q = p
    by false p q = q

-- The watcher of a program empties its slot, if Stop is not about it.
pub emptied-watchers_act :
    (n : ℕ) (ws : List (ℕ × String)) (a : GoAgent)
    → a.stopping ≡ false
    → watched n ws ≡ true
    → holds n (watchers_act n ws a).cmd ≡ false
unfolding watchers_act watched child_exited publish cleanup_after_exit
emptied-watchers_act n [] a s w = absurd cc
emptied-watchers_act n ((k, rid) ∷ ws) a s w =
    by (k == n) refl (λ h. unheld-watchers_act n n ws (child_exited k rid a) h)
      (λ f. emptied-watchers_act n ws a s f)
  where
    by :
        (b : Bool)
        → (k == n) ≡ b
        → (holds n (child_exited k rid a).cmd ≡ false
            → holds n (watchers_act n ws (child_exited k rid a)).cmd ≡ false)
        → (watched n ws ≡ true → holds n (watchers_act n ws a).cmd ≡ false)
        → holds n (if b then watchers_act n ws (child_exited k rid a) else watchers_act n ws a).cmd
          ≡ false
    by true e p q = p (ground (arith, s, e))
    by false e p q = q (ground (arith, e, w))
