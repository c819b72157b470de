-- ===== src/AgentGraph/Manager.antt =====
-- core/agentmgr/manager.go: every agent is started in the start order, and stopped in the other
-- direction.
--
-- What a controller's Apply does is a parameter, with the state of the world; `has` tells of which
-- agents there still is one when their turn comes.
use gapi.Prelude.{
  ◌≡◌, refl, ap, ◌∙◌, String, Bool, true, false, not, ◌||◌, List, [], ◌∷◌, ◌++◌, arith, elem,
  filter, if◌then◌else◌, same, eq_of_same,
}
use mathlib.Core.Path.{subst}
use gapi.Toposort.Kahn.{Outcome, ok, cycle, no_progress}
use gapi.AgentGraph
use gapi.AgentGraph.{Agents, is_agent}
use gapi.AgentGraph.Order.{lists, topological_sort_respects_hard}

-- How a run over the agents ends.
pub data Verdict : Type 0 where
  done not_sorted : Verdict
  -- The agent whose action failed.
  failed : String → Verdict

module _ {S : Type 0} (has : String → Bool) (apply : String → S → S × Bool) where
  -- The world afterwards, the agents that were applied to, and the verdict.
  abbrev pub Ran : Type 0
  Ran = S × List String × Verdict

  abbrev pub behind : String → Ran → Ran
  behind id (s, ids, v) = (s, id ∷ ids, v)

  abbrev pub applied : String → S × Bool → (S → Ran) → Ran
  applied id (s, false) rest = (s, id ∷ [], failed id)
  applied id (s, true) rest = behind id (rest s)

  -- The loop of both.
  unfoldable pub run_over : List String → S → Ran
  run_over [] s = (s, [], done)
  run_over (id ∷ ids) s =
      let rest : S → Ran = λ t. run_over ids t in
      if not (has id) then rest s else applied id (apply id s) rest

  unfoldable pub backwards : List String → List String
  backwards [] = []
  backwards (id ∷ ids) = backwards ids ++ id ∷ []

  abbrev pub start_sorted : Outcome → S → Ran
  start_sorted (ok order) s = run_over order s
  start_sorted (cycle ids) s = (s, [], not_sorted)
  start_sorted no_progress s = (s, [], not_sorted)

  abbrev pub stop_sorted : Outcome → S → Ran
  stop_sorted (ok order) s = run_over (backwards order) s
  stop_sorted (cycle ids) s = (s, [], not_sorted)
  stop_sorted no_progress s = (s, [], not_sorted)

  unfoldable pub start_all : Agents → S → Ran
  unfolding run_over AgentGraph.topological_sort
  start_all agents s = start_sorted (AgentGraph.topological_sort agents) s

  unfoldable pub stop_all : Agents → S → Ran
  unfolding run_over backwards AgentGraph.topological_sort
  stop_all agents s = stop_sorted (AgentGraph.topological_sort agents) s

nothing_applied : (before after : List String) (n : String) → [] ≡ before ++ n ∷ after → ⊥
nothing_applied [] after n e = cc
nothing_applied (x ∷ before) after n e = cc

-- The list splits at an element that the filter keeps as its image does.
split-filter :
    (p : String → Bool) (ids before rest : List String) (n : String)
    → filter p ids ≡ before ++ n ∷ rest
    → (b r : List String) × (ids ≡ b ++ n ∷ r) × (filter p b ≡ before)
unfolding filter
split-filter p [] [] rest n h = absurd cc
split-filter p [] (x ∷ before) rest n h = absurd cc
split-filter p (id ∷ ids) before rest n h =
    by (p id) refl before h (λ c k. split-filter p ids c rest n k)
  where
    by :
        (b : Bool)
        → p id ≡ b
        → (c : List String) → (if b then id ∷ filter p ids else filter p ids) ≡ c ++ n ∷ rest
        → ((d : List String)
            → filter p ids ≡ d ++ n ∷ rest
            → (b' r : List String) × (ids ≡ b' ++ n ∷ r) × (filter p b' ≡ d))
        → (b' r : List String) × (id ∷ ids ≡ b' ++ n ∷ r) × (filter p b' ≡ c)
    by true e [] k rec = ([], ids, ground (arith, k), refl)
    by true e (x ∷ c) k rec =
        let (b', r, e1, e2) = rec c (ground (arith, k)) in
        (id ∷ b', r, ap (λ l. id ∷ l) e1, ground (arith, e, e2, k))
    by false e c k rec =
        let (b', r, e1, e2) = rec c k in (id ∷ b', r, ap (λ l. id ∷ l) e1, ground (arith, e, e2))

elem-filter :
    (p : String → Bool) (d : String) (ids : List String)
    → elem d ids ≡ true
    → p d ≡ true
    → elem d (filter p ids) ≡ true
unfolding filter elem
elem-filter p d [] h e = absurd cc
elem-filter p d (id ∷ ids) h e = by (same id d) refl (λ k. elem-filter p d ids k e)
  where
    by :
        (b : Bool)
        → same id d ≡ b
        → (elem d ids ≡ true → elem d (filter p ids) ≡ true)
        → elem d (if p id then id ∷ filter p ids else filter p ids) ≡ true
    by true k rec = let kept : p id ≡ true = ap p (eq_of_same id d k) ∙ e in ground (arith, kept, k)
    by false k rec = ground (arith, k, rec (ground (arith, k, h)))

module _ {S : Type 0} (has : String → Bool) (apply : String → S → S × Bool) where
  -- What was applied to is the head of the order, without the agents that are gone.
  run_over-filter :
      (ids before after : List String) (n : String) (s : S)
      → (run_over has apply ids s).1 ≡ before ++ n ∷ after
      → (rest : List String) × (filter has ids ≡ before ++ n ∷ rest)
  unfolding run_over filter
  run_over-filter [] [] after n s h = absurd cc
  run_over-filter [] (x ∷ before) after n s h = absurd cc
  run_over-filter (id ∷ ids) before after n s h =
      by (has id) refl (apply id s) before h (λ c t k. run_over-filter ids c after n t k)
    where
      rest : S → Ran has apply
      rest t = run_over has apply ids t

      by :
          (b : Bool)
          → has id ≡ b
          → (x : S × Bool) (c : List String)
          → (if not b then rest s else applied has apply id x rest).1 ≡ c ++ n ∷ after
          → ((d : List String) (t : S)
              → (rest t).1 ≡ d ++ n ∷ after
              → (r : List String) × (filter has ids ≡ d ++ n ∷ r))
          → (r : List String) × ((if has id then id ∷ filter has ids else filter has ids)
              ≡ c ++ n ∷ r)
      by false e x c k rec = let (r, l) = rec c s k in (r, ground (arith, e, l))
      by true e (t, false) [] k rec = (filter has ids, ground (arith, e, k))
      by true e (t, false) (x ∷ []) k rec = absurd cc
      by true e (t, false) (x ∷ y ∷ c) k rec = absurd cc
      by true e (t, true) [] k rec = (filter has ids, ground (arith, e, k))
      by true e (t, true) (x ∷ c) k rec =
          let (r, l) = rec c t (ground (arith, k)) in (r, ground (arith, e, k, l))

  -- However StartAll ends: before it applies the start to an agent, it has applied it to every other
  -- agent of the map that this one requires, or that declares to be required by it, and that is
  -- still there.
  pub start_all_respects_hard :
      (agents : Agents) (s : S) (before after : List String) (n d : String)
      → (start_all has apply agents s).1 ≡ before ++ n ∷ after
      → is_agent agents n ≡ true
      → is_agent agents d ≡ true
      → has d ≡ true
      → same d n ≡ false
      → (lists (λ a. a.requires) agents n d || lists (λ a. a.required_by) agents d n) ≡ true
      → elem d before ≡ true
  unfolding start_all
  start_all_respects_hard agents s before after n d ran kn kd there other dep =
      by (AgentGraph.topological_sort agents) refl ran
    where
      by :
          (o : Outcome)
          → AgentGraph.topological_sort agents ≡ o
          → (start_sorted has apply o s).1 ≡ before ++ n ∷ after
          → elem d before ≡ true
      by (ok order) sorted k =
          let (rest, kept) = run_over-filter order before after n s k in
          let (b, r, split, same_head) = split-filter has order before rest n kept in
          let earlier =
            topological_sort_respects_hard agents b r n d (sorted ∙ ap ok split) kn kd other dep in
          subst (λ l. elem d l ≡ true) same_head (elem-filter has d b earlier there)
      by (cycle ids) sorted k = absurd (nothing_applied before after n k)
      by no_progress sorted k = absurd (nothing_applied before after n k)
