-- ===== src/Runner/Once.antt =====
-- The ends of an agent's programs: what the supervisor reports of each, with one call at most under way.
use gapi.Prelude.{
  ℕ, ◌+◌, ◌≡◌, refl, String, Bool, true, false, not, ◌&&◌, ◌||◌, List, [], ◌∷◌, ◌++◌, ◌==◌, ltb,
  leb, arith, count_p, if◌then◌else◌,
}
use gapi.Runner.Agent.{
  Slot, About, spawned, adopted, Report, starting, ended, said, GoAgent, publish,
  cleanup_after_exit, Sockets, arm, ensure_listener,
}
use gapi.Runner.Calls.{
  returns, stops_adopted, adopts, Call, idle, in_oneshot, in_stop, joining, in_stop_adopted, holds,
  child_exited, oneshot_ended, rearm,
}

abbrev pub about : ℕ → About → Bool
about n (spawned m) = m == n
about n adopted = false

-- A report that the program of the number has ended.
abbrev pub is_end : ℕ → Report → Bool
is_end n (ended who state rid) = about n who
is_end n (starting m rid) = false
is_end n (said state rid) = false

unfoldable pub reported : ℕ → List Report → ℕ
reported n rs = count_p (is_end n) rs

unfoldable pub watched : ℕ → List (ℕ × String) → Bool
watched n [] = false
watched n ((m, rid) ∷ ws) = m == n || watched n ws

-- What each state of a call asks of the agent: without one, the program in the slot is watched and its
-- end is not taken for a stop; the program that a call waits for has not been reported.
abbrev pub call_ok : ℕ → Call → Slot → Bool → Bool → ℕ → ℕ → Bool
call_ok n idle cmd stopping watched s r = not (holds n cmd) || (not stopping && watched)
call_ok n (in_oneshot m rid) cmd stopping watched s r =
    (not (holds n cmd) || m == n) && (not (m == n) || ((not watched && not (ltb 0 r)) && ltb n s))
call_ok n (in_stop m rid) cmd stopping watched s r =
    ((not (holds n cmd) || m == n) && stopping) && (not (m == n) || (not (ltb 0 r) && ltb n s))
call_ok n (joining w returns) cmd stopping watched s r = not (holds n cmd)
call_ok n (joining w (stops_adopted p e rid)) cmd stopping watched s r = not (holds n cmd)
call_ok n (joining w (adopts p)) cmd stopping watched s r = true
call_ok n (in_stop_adopted p e rid) cmd stopping watched s r = not (holds n cmd)

-- The call waits for the program of the number.
abbrev pub waits_for : ℕ → Call → Bool
waits_for n (in_oneshot m rid) = m == n
waits_for n idle = false
waits_for n (in_stop m rid) = false
waits_for n (joining w t) = false
waits_for n (in_stop_adopted p e rid) = false

-- The program of the number is reported once at most, not yet if it is in the slot, and not before it
-- was spawned; nor is it in the slot, or watched, before.
abbrev pub agent_ok : ℕ → Slot → Bool → ℕ → ℕ → Bool
agent_ok n cmd watched s r =
    (leb r 1 && (not (holds n cmd) || (not (ltb 0 r) && ltb n s)))
    && ((not watched || ltb n s) && (ltb n s || not (ltb 0 r)))

module _ (n : ℕ) where
  abbrev pub AgentOk : GoAgent → Type 0
  AgentOk a = agent_ok n a.cmd (watched n a.watchers) a.spawns (reported n a.reports) ≡ true

  abbrev pub CallOk : Call → GoAgent → Type 0
  CallOk c a =
      call_ok n c a.cmd a.stopping (watched n a.watchers) a.spawns (reported n a.reports) ≡ true

  pub reported-append :
      (rs : List Report) (r : Report)
      → reported n (rs ++ r ∷ []) ≡ reported n rs + (if is_end n r then 1 else 0)
  unfolding reported count_p
  reported-append [] r = ground arith
  reported-append (q ∷ rs) r = ground (arith, reported-append rs r)

  -- What is published changes nothing but the reports.
  published :
      (r : Report) (a : GoAgent)
      → reported n (publish r a).reports
        ≡ (if a.has_bus && is_end n r then reported n a.reports + 1 else reported n a.reports)
  unfolding publish
  published r a = ground (arith, reported-append a.reports r)

  pub child_exited-AgentOk :
      (m : ℕ) (rid : String) (a : GoAgent) → AgentOk a → AgentOk (child_exited m rid a)
  unfolding child_exited publish cleanup_after_exit
  child_exited-AgentOk m rid a h = ground (
    arith,
    h,
    published (ended (spawned m) "FAILED" rid) a,
    reported-append a.reports (ended (spawned m) "FAILED" rid),
  )

  pub child_exited-CallOk :
      (m : ℕ) (rid : String) (c : Call) (a : GoAgent)
      → AgentOk a
      → CallOk c a
      → (m == n ≡ true → waits_for n c ≡ false)
      → CallOk c (child_exited m rid a)
  unfolding child_exited publish cleanup_after_exit
  child_exited-CallOk m rid idle a h g w =
      ground (arith, h, g, reported-append a.reports (ended (spawned m) "FAILED" rid))
  child_exited-CallOk m rid (in_oneshot k r) a h g w =
      ground (arith, h, g, w, reported-append a.reports (ended (spawned m) "FAILED" rid))
  child_exited-CallOk m rid (in_stop k r) a h g w =
      ground (arith, h, g, reported-append a.reports (ended (spawned m) "FAILED" rid))
  child_exited-CallOk m rid (joining j returns) a h g w =
      ground (arith, h, g, reported-append a.reports (ended (spawned m) "FAILED" rid))
  child_exited-CallOk m rid (joining j (stops_adopted p e r)) a h g w =
      ground (arith, h, g, reported-append a.reports (ended (spawned m) "FAILED" rid))
  child_exited-CallOk m rid (joining j (adopts p)) a h g w = refl
  child_exited-CallOk m rid (in_stop_adopted p e r) a h g w =
      ground (arith, h, g, reported-append a.reports (ended (spawned m) "FAILED" rid))

  pub oneshot_ended-AgentOk :
      (ok : Bool) (m : ℕ) (rid : String) (a : GoAgent)
      → AgentOk a
      → CallOk (in_oneshot m rid) a
      → AgentOk (oneshot_ended ok m rid a)
  unfolding oneshot_ended publish cleanup_after_exit
  oneshot_ended-AgentOk ok m rid a h g = ground (
    arith,
    h,
    g,
    reported-append a.reports (ended (spawned m) (if ok then "COMPLETED" else "FAILED") rid),
  )

  -- Watching the socket again touches none of this.
  abbrev pub SameRuns : GoAgent → GoAgent → Type 0
  SameRuns a b =
      (b.cmd ≡ a.cmd)
      × (b.stopping ≡ a.stopping)
      × (b.watchers ≡ a.watchers)
      × (b.spawns ≡ a.spawns)
      × (b.reports ≡ a.reports)

  pub arm-SameRuns : (net : Sockets) (a : GoAgent) → SameRuns a (arm net a)
  unfolding arm ensure_listener
  arm-SameRuns net a = ground arith

  pub rearm-SameRuns : (net : Sockets) (a : GoAgent) → SameRuns a (rearm net a)
  unfolding rearm
  rearm-SameRuns net a = ground (arith, arm-SameRuns net a)
