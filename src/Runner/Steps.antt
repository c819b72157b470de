-- ===== src/Runner/Steps.antt =====
-- core/agentmgr: what happens to an agent, in any order. Start, Stop, Reset and Restore may overlap,
-- each in the parts that hold the lock; watchers, readers of control channels and the loop that watches
-- a socket act when they like.
use gapi.Prelude.{
  ℕ, zero, suc, ◌==◌, ◌++◌, ◌&&◌, ◌||◌, true, false, String, Bool, not, List, [], ◌∷◌, Option, some,
  filter, if◌then◌else◌,
}
use Prim.Native.String.{◌∷◌ as cons_char, [] as no_chars}
use Prim.Native.Char.{Char, code}
use gapi.Limits.{Floats}
use gapi.Runner.Control.{Effect, frame_seen, announced, published, beat, error, info}
use gapi.Runner.Agent.{
  said, AdoptedWatch, GoAgent, publish, set_run_id, set_enabled, note_announced_state,
  note_frame_seen, Sockets, arm, on_traffic,
}
use gapi.Runner.Calls.{
  Call, idle, in_oneshot, in_stop, joining, in_stop_adopted, Answers, Begun, start, oneshot_ended,
  child_exited, stop, stopped, reset,
}
use gapi.Runner.Adopted.{StopOutcome, adopted_exited, adopted_stopped, adopt, join, go_on}

-- The letter at the place in the second text where the first has the character.
unfoldable pub translate : Char → String → String → Char
translate c no_chars capitals = c
translate c (cons_char x xs) no_chars = c
translate c (cons_char x xs) (cons_char y ys) =
    let rest = translate c xs ys in if code c == code x then y else rest

-- `strings.ToUpper`, on ASCII.
unfoldable pub to_upper : String → String
unfolding translate
to_upper no_chars = no_chars
to_upper (cons_char c s) =
    cons_char (translate c "abcdefghijklmnopqrstuvwxyz" "ABCDEFGHIJKLMNOPQRSTUVWXYZ") (to_upper s)

-- What a reader of a control channel does to the agent.
unfoldable pub hear : Effect → GoAgent → GoAgent
unfolding to_upper publish note_announced_state note_frame_seen
hear frame_seen a = note_frame_seen a
hear (announced state run_id) a = note_announced_state state run_id a
hear (published state message run_id) a = publish (said (to_upper state) run_id) a
hear (beat hb) a = a
hear (error msg) a = a
hear (info msg) a = a

-- A number says which of the calls under way goes on. The epoch of a join is the one that is found,
-- for a call that adopts.
pub data Op : Type 0 where
  starts : Answers → Op
  oneshot_ends : ℕ → Bool → Op
  stops resets : Op
  stop_ends : ℕ → Sockets → Op
  restores : ℕ → Op
  joins : ℕ → Option ℕ → Op
  stop_adopted_ends : ℕ → StopOutcome → Sockets → Op
  -- The watcher of a program, and one of an adopted process.
  child_exits adopted_exits : ℕ → Op
  hears : Effect → Op
  sets_run_id : String → Op
  sets_enabled sets_handler : Bool → Op
  arms : Sockets → Op
  traffic : Op

-- The operations that are calls.
abbrev pub begins : Op → Bool
begins (starts env) = true
begins stops = true
begins resets = true
begins (restores pid) = true
begins _ = false

abbrev pub no_calls : List Call → Bool
no_calls [] = true
no_calls (c ∷ cs) = false

-- The agent, and the calls that have given the lock up and not returned, the oldest first.
pub record Session : Type 0 where
  pub agent : GoAgent
  pub calls : List Call

-- The watchers of the program act, if there are any.
unfoldable pub watchers_act : ℕ → List (ℕ × String) → GoAgent → GoAgent
unfolding child_exited
watchers_act n [] a = a
watchers_act n ((m, rid) ∷ ws) a =
    let rest = watchers_act n ws in if m == n then rest (child_exited m rid a) else rest a

unfoldable pub adopted_act : ℕ → List AdoptedWatch → GoAgent → GoAgent
unfolding adopted_exited
adopted_act k [] a = a
adopted_act k (w ∷ ws) a =
    let rest = adopted_act k ws in
    if w.number == k then rest (adopted_exited w.pid w.epoch a) else rest a

abbrev pub drop_watchers : ℕ → GoAgent → GoAgent
drop_watchers n a = record a { watchers = filter (λ (w : ℕ × String). not (w.0 == n)) a.watchers }

-- A call that has returned is not under way.
abbrev pub add_call : Call → List Call → List Call
add_call idle cs = cs
add_call (in_oneshot n rid) cs = cs ++ in_oneshot n rid ∷ []
add_call (in_stop n rid) cs = cs ++ in_stop n rid ∷ []
add_call (joining w t) cs = cs ++ joining w t ∷ []
add_call (in_stop_adopted p e rid) cs = cs ++ in_stop_adopted p e rid ∷ []

abbrev pub session : List Call → GoAgent × Call → Session
session cs (a, c) = record { agent = a; calls = add_call c cs }

-- The call at a place, and the others; `idle` if there is none.
unfoldable pub take_call : ℕ → List Call → Call × List Call
take_call k [] = (idle, [])
take_call zero (c ∷ cs) = (c, cs)
take_call (suc k) (c ∷ cs) = let (d, rest) = take_call k cs in (d, c ∷ rest)

-- How a call ends, or goes on, if it is of that kind.
abbrev pub end_oneshot : Bool → Session → Call × List Call → Session
end_oneshot ok s (in_oneshot n rid, rest) = record {
  agent = oneshot_ended ok n rid s.agent;
  calls = rest;
}
end_oneshot ok s (idle, rest) = s
end_oneshot ok s (in_stop n rid, rest) = s
end_oneshot ok s (joining w t, rest) = s
end_oneshot ok s (in_stop_adopted p e rid, rest) = s

abbrev pub end_stop : Sockets → Session → Call × List Call → Session
end_stop net s (in_stop n rid, rest) = record { agent = stopped net n rid s.agent; calls = rest }
end_stop net s (idle, rest) = s
end_stop net s (in_oneshot n rid, rest) = s
end_stop net s (joining w t, rest) = s
end_stop net s (in_stop_adopted p e rid, rest) = s

abbrev pub end_join : Option ℕ → Session → Call × List Call → Session
end_join epoch s (joining w t, rest) = session rest (go_on t epoch (join w s.agent))
end_join epoch s (idle, rest) = s
end_join epoch s (in_oneshot n rid, rest) = s
end_join epoch s (in_stop n rid, rest) = s
end_join epoch s (in_stop_adopted p e rid, rest) = s

abbrev pub end_stop_adopted : StopOutcome → Sockets → Session → Call × List Call → Session
end_stop_adopted o net s (in_stop_adopted p e rid, rest) = record {
  agent = adopted_stopped net rid o s.agent;
  calls = rest;
}
end_stop_adopted o net s (idle, rest) = s
end_stop_adopted o net s (in_oneshot n rid, rest) = s
end_stop_adopted o net s (in_stop n rid, rest) = s
end_stop_adopted o net s (joining w t, rest) = s

module _ (fl : Floats) where
  abbrev pub begun : Begun → GoAgent × Call
  begun (a, c, failure) = (a, c)

  unfoldable pub do_op : Op → Session → Session
  unfolding start oneshot_ended stop stopped reset adopt adopted_stopped watchers_act adopted_act
      hear set_run_id set_enabled arm on_traffic take_call
  do_op (starts env) s = session s.calls (begun (start fl env s.agent))
  do_op (oneshot_ends k ok) s = end_oneshot ok s (take_call k s.calls)
  do_op stops s = session s.calls (stop s.agent)
  do_op resets s = session s.calls (reset s.agent)
  do_op (stop_ends k net) s = end_stop net s (take_call k s.calls)
  do_op (restores pid) s = session s.calls (adopt pid s.agent)
  do_op (joins k epoch) s = end_join epoch s (take_call k s.calls)
  do_op (stop_adopted_ends k o net) s = end_stop_adopted o net s (take_call k s.calls)
  do_op (child_exits n) s = record s {
    agent = watchers_act n s.agent.watchers (drop_watchers n s.agent);
  }
  do_op (adopted_exits k) s = record s {
    agent = adopted_act k s.agent.adopted_watchers (join (some k) s.agent);
  }
  do_op (hears e) s = record s { agent = hear e s.agent }
  do_op (sets_run_id id) s = record s { agent = set_run_id id s.agent }
  do_op (sets_enabled v) s = record s { agent = set_enabled v s.agent }
  do_op (sets_handler v) s = record s { agent = record s.agent { traffic_handler = v } }
  do_op (arms net) s = record s { agent = arm net s.agent }
  do_op traffic s = record s { agent = on_traffic s.agent }

  unfoldable pub do_ops : List Op → Session → Session
  unfolding do_op
  do_ops [] s = s
  do_ops (op ∷ ops) s = do_ops ops (do_op op s)

  -- No call begins while another is under way.
  unfoldable pub calls_apart : List Op → Session → Bool
  unfolding do_op
  calls_apart [] s = true
  calls_apart (op ∷ ops) s = (not (begins op) || no_calls s.calls) && calls_apart ops (do_op op s)
