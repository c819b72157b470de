-- ===== src/Runner/Released.antt =====
-- The slot of an agent with its calls under way, through any series of operations.
use gapi.Prelude.{ℕ, ◌≡◌, refl, Bool, ◌||◌, List, [], ◌∷◌, Option, some, arith}
use gapi.Limits.{Floats}
use gapi.Runner.Agent.{
  spawned, ended, GoAgent, publish, set_run_id, set_enabled, cleanup_after_exit, Sockets,
  on_traffic,
}
use gapi.Runner.Calls.{
  Call, idle, in_oneshot, in_stop, joining, in_stop_adopted, start, oneshot_ended, stop, stopped,
  reset,
}
use gapi.Runner.Adopted.{StopOutcome, adopt, join, go_on}
use gapi.Runner.Steps.{
  Op, starts, oneshot_ends, stops, resets, stop_ends, restores, joins, stop_adopted_ends,
  child_exits, adopted_exits, hears, sets_run_id, sets_enabled, sets_handler, arms, traffic,
  Session, session, take_call, end_oneshot, end_stop, end_join, end_stop_adopted, begun, do_op,
  do_ops,
}
use gapi.Runner.Once.{rearm-SameRuns}
use gapi.Runner.Minded.{
  is_stop, is_oneshot, any_call, any_call-add_call, any_call-take_call, Minded, Begun, start-Begun,
  stop-Begun, go_on-Begun, join-Minded, emptied-Minded, adopted_stopped-Minded, child_exits-Minded,
  adopted_act-Minded, hear-Minded, arm-Minded,
}

module _ (n : ℕ) where
  abbrev pub IsMinded : Session → Type 0
  IsMinded s = Minded n s.agent (any_call is_stop s.calls) (any_call (is_oneshot n) s.calls)

  session-IsMinded :
      (x : GoAgent × Call) (cs : List Call)
      → Begun n x (any_call is_stop cs) (any_call (is_oneshot n) cs)
      → IsMinded (session cs x)
  session-IsMinded x cs h = ground (
    arith,
    h,
    any_call-add_call is_stop x.1 cs refl,
    any_call-add_call (is_oneshot n) x.1 cs refl,
  )

  end_oneshot-IsMinded :
      (ok : Bool) (k : ℕ) (s : Session)
      → IsMinded s
      → IsMinded (end_oneshot ok s (take_call k s.calls))
  unfolding oneshot_ended cleanup_after_exit
  end_oneshot-IsMinded ok k s h = by (take_call k s.calls)
    where
      by : (x : Call × List Call) → IsMinded (end_oneshot ok s x)
      by (in_oneshot m rid, rest) = refl
      by (idle, rest) = h
      by (in_stop m rid, rest) = h
      by (joining w t, rest) = h
      by (in_stop_adopted q e rid, rest) = h

  end_stop-IsMinded :
      (net : Sockets) (k : ℕ) (s : Session)
      → IsMinded s
      → IsMinded (end_stop net s (take_call k s.calls))
  unfolding stopped cleanup_after_exit
  end_stop-IsMinded net k s h = by (take_call k s.calls)
    where
      by : (x : Call × List Call) → IsMinded (end_stop net s x)
      by (in_stop m rid, rest) =
          let b = cleanup_after_exit (publish (ended (spawned m) "STOPPED" rid) s.agent) in
          emptied-Minded n (stopped net m rid s.agent) (any_call is_stop rest)
            (any_call (is_oneshot n) rest) (rearm-SameRuns n net b).0
      by (idle, rest) = h
      by (in_oneshot m rid, rest) = h
      by (joining w t, rest) = h
      by (in_stop_adopted q e rid, rest) = h

  end_join-IsMinded :
      (epoch : Option ℕ) (k : ℕ) (s : Session)
      → IsMinded s
      → IsMinded (end_join epoch s (take_call k s.calls))
  end_join-IsMinded epoch k s h =
      by (take_call k s.calls) (any_call-take_call is_stop k s.calls refl)
        (any_call-take_call (is_oneshot n) k s.calls refl)
    where
      by :
          (x : Call × List Call)
          → any_call is_stop s.calls ≡ (is_stop x.0 || any_call is_stop x.1)
          → any_call (is_oneshot n) s.calls ≡ (is_oneshot n x.0 || any_call (is_oneshot n) x.1)
          → IsMinded (end_join epoch s x)
      by (joining w t, rest) e1 e2 = session-IsMinded (go_on t epoch (join w s.agent)) rest (
          go_on-Begun n (any_call is_stop rest) (any_call (is_oneshot n) rest) t epoch
            (join w s.agent)
            (join-Minded n (any_call is_stop rest) (any_call (is_oneshot n) rest) w s.agent
              (ground (arith, h, e1, e2))))
      by (idle, rest) e1 e2 = h
      by (in_oneshot m rid, rest) e1 e2 = h
      by (in_stop m rid, rest) e1 e2 = h
      by (in_stop_adopted q e rid, rest) e1 e2 = h

  end_stop_adopted-IsMinded :
      (o : StopOutcome) (net : Sockets) (k : ℕ) (s : Session)
      → IsMinded s
      → IsMinded (end_stop_adopted o net s (take_call k s.calls))
  end_stop_adopted-IsMinded o net k s h =
      by (take_call k s.calls) (any_call-take_call is_stop k s.calls refl)
        (any_call-take_call (is_oneshot n) k s.calls refl)
    where
      by :
          (x : Call × List Call)
          → any_call is_stop s.calls ≡ (is_stop x.0 || any_call is_stop x.1)
          → any_call (is_oneshot n) s.calls ≡ (is_oneshot n x.0 || any_call (is_oneshot n) x.1)
          → IsMinded (end_stop_adopted o net s x)
      by (in_stop_adopted q e rid, rest) e1 e2 =
          adopted_stopped-Minded n (any_call is_stop rest) (any_call (is_oneshot n) rest) net rid o
            s.agent (ground (arith, h, e1, e2))
      by (idle, rest) e1 e2 = h
      by (in_oneshot m rid, rest) e1 e2 = h
      by (in_stop m rid, rest) e1 e2 = h
      by (joining w t, rest) e1 e2 = h

  module _ (fl : Floats) where
    do_op-IsMinded : (op : Op) (s : Session) → IsMinded s → IsMinded (do_op fl op s)
    unfolding do_op set_run_id set_enabled on_traffic adopt reset cleanup_after_exit
    do_op-IsMinded (starts env) s h =
        session-IsMinded (begun fl (start fl env s.agent)) s.calls
          (start-Begun n _ _ fl env s.agent h)
    do_op-IsMinded (oneshot_ends k ok) s h = end_oneshot-IsMinded ok k s h
    do_op-IsMinded stops s h = session-IsMinded (stop s.agent) s.calls (stop-Begun n _ _ s.agent h)
    do_op-IsMinded resets s h = session-IsMinded (reset s.agent) s.calls refl
    do_op-IsMinded (stop_ends k net) s h = end_stop-IsMinded net k s h
    do_op-IsMinded (restores pid) s h =
        session-IsMinded (adopt pid s.agent) s.calls (ground (arith, h))
    do_op-IsMinded (joins k epoch) s h = end_join-IsMinded epoch k s h
    do_op-IsMinded (stop_adopted_ends k o net) s h = end_stop_adopted-IsMinded o net k s h
    do_op-IsMinded (child_exits m) s h = child_exits-Minded n m s.agent _ _ h
    do_op-IsMinded (adopted_exits k) s h =
        adopted_act-Minded n _ _ k s.agent.adopted_watchers (join (some k) s.agent) h
    do_op-IsMinded (hears e) s h = hear-Minded n _ _ e s.agent h
    do_op-IsMinded (sets_run_id id) s h = h
    do_op-IsMinded (sets_enabled v) s h = h
    do_op-IsMinded (sets_handler v) s h = h
    do_op-IsMinded (arms net) s h = arm-Minded n _ _ net s.agent h
    do_op-IsMinded traffic s h = h

    pub do_ops-IsMinded : (ops : List Op) (s : Session) → IsMinded s → IsMinded (do_ops fl ops s)
    unfolding do_ops
    do_ops-IsMinded [] s h = h
    do_ops-IsMinded (op ∷ ops) s h = do_ops-IsMinded ops (do_op fl op s) (do_op-IsMinded op s h)
