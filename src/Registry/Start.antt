-- ===== src/Registry/Start.antt =====
-- The start order of the registered agents.
use mathlib.Core.Path.{subst}
use gapi.Prelude.{
  ℕ, ◌≡◌, refl, sym, ap, ◌∙◌, String, true, false, ◌&&◌, ◌||◌, List, [], ◌∷◌, ◌++◌, Option, none,
  some, same, same_refl, eq_of_same, elem, is_some, arith, Bool-cases, Option-cases, ◌⊎◌, inl, inr,
}
use gapi.Store.Bbolt.{Bbolt}
use gapi.Store.Graph.{Value}
use gapi.Store.Graph.Path.{Pop}
use gapi.Store.Hybrid.{Db, hybrid}
use gapi.Store.Interface.{HybridStore, IsHybridStore}
use gapi.Toposort.Kahn.{Outcome, ok, cycle, no_progress}
use gapi.AgentGraph
use gapi.AgentGraph.{Agent, is_agent}
use gapi.AgentGraph.Order.{lists, topological_sort_respects_hard}
use gapi.Registry.Register.{AgentDescription, agents_bucket}
use gapi.Registry.Queries.{
  lookup, cons_agent, lookup_all, list_keys, list, declared, sync_graph, sync_with, sync_ordered,
  sort_listed, topological_sort,
}

-- The agent is one of the list.
abbrev In : AgentDescription → List AgentDescription → Type 0
In a [] = ⊥
In a (x ∷ xs) = (x ≡ a) ⊎ In a xs

is_agent-declared :
    (a : AgentDescription) (agents : List AgentDescription)
    → In a agents
    → is_agent (declared agents) a.id ≡ true
unfolding is_agent declared
is_agent-declared a [] h = absurd h
is_agent-declared a (x ∷ xs) (inl e) =
    ground (arith, ap (λ (y : AgentDescription). same y.id a.id) e, same_refl a.id)
is_agent-declared a (x ∷ xs) (inr h) = ground (arith, is_agent-declared a xs h)

lists-requires :
    (a : AgentDescription) (agents : List AgentDescription) (d : String)
    → In a agents
    → elem d a.requires ≡ true
    → lists (λ x. x.requires) (declared agents) a.id d ≡ true
unfolding lists declared
lists-requires a [] d h r = absurd h
lists-requires a (x ∷ xs) d (inl e) r =
    ground (
      arith,
      ap (λ (y : AgentDescription). same y.id a.id && elem d y.requires) e,
      same_refl a.id,
      r,
    )
lists-requires a (x ∷ xs) d (inr h) r = ground (arith, lists-requires a xs d h r)

lists-required_by :
    (a : AgentDescription) (agents : List AgentDescription) (d : String)
    → In a agents
    → elem d a.required_by ≡ true
    → lists (λ x. x.required_by) (declared agents) a.id d ≡ true
unfolding lists declared
lists-required_by a [] d h r = absurd h
lists-required_by a (x ∷ xs) d (inl e) r = ground (
  arith,
  ap (λ (y : AgentDescription). same y.id a.id && elem d y.required_by) e,
  same_refl a.id,
  r,
)
lists-required_by a (x ∷ xs) d (inr h) r = ground (arith, lists-required_by a xs d h r)

declared_dep :
    (a b : AgentDescription) (agents : List AgentDescription)
    → In a agents
    → In b agents
    → (elem b.id a.requires || elem a.id b.required_by) ≡ true
    → (lists (λ x. x.requires) (declared agents) a.id b.id
        || lists (λ x. x.required_by) (declared agents) b.id a.id)
      ≡ true
declared_dep a b agents in_a in_b dep = elim (Bool-cases (elem b.id a.requires)) [
  | inl forward ↦ ground (arith, lists-requires a agents b.id in_a forward)
  | inr none_forward ↦
      ground (arith, lists-required_by b agents a.id in_b (ground (arith, dep, none_forward)))
]

module _ (st : HybridStore AgentDescription) where
  cons_agent-some :
      (o : Option AgentDescription) (p : Option (List AgentDescription))
      (agents : List AgentDescription)
      → cons_agent o p ≡ some agents
      → (a : AgentDescription) × (rest : List AgentDescription) × (o ≡ some a)
        × (p ≡ some rest)
        × (a ∷ rest ≡ agents)
  cons_agent-some none p agents h = absurd cc
  cons_agent-some (some a) none agents h = absurd cc
  cons_agent-some (some a) (some rest) agents h = (a, rest, refl, refl, ground (arith, h))

  In-lookup_all :
      (ks : List String) (s : st.State) (agents : List AgentDescription) (k : String)
      (a : AgentDescription)
      → lookup_all st ks s ≡ some agents
      → elem k ks ≡ true
      → lookup st k s ≡ some a
      → In a agents
  unfolding lookup_all elem
  In-lookup_all [] s agents k a h there found = absurd cc
  In-lookup_all (j ∷ ks) s agents k a h there found =
      let (b, rest, found_j, listed, e) =
        cons_agent-some (lookup st j s) (lookup_all st ks s) agents h in
      subst (In a) e (elim (Bool-cases (same j k)) [
        | inl hit ↦
            inl (ground (arith, found, found_j, ap (λ i. lookup st i s) (eq_of_same j k hit)))
        | inr miss ↦ inr (In-lookup_all ks s rest k a listed (ground (arith, there, miss)) found)
      ])

  sync_ordered-ok :
      (agents : List AgentDescription) (o : Outcome) (s t : st.State) (order : List String)
      → sync_ordered st agents o s ≡ (t, some (ok order))
      → o ≡ ok order
  sync_ordered-ok agents (ok l) s t order h = ground (arith, h)
  sync_ordered-ok agents (cycle l) s t order h = absurd cc
  sync_ordered-ok agents no_progress s t order h = absurd cc

  module _ (laws : IsHybridStore st) where
    In-list :
        (s : st.State) (agents : List AgentDescription) (k : String) (a : AgentDescription)
        → list st s ≡ some agents
        → lookup st k s ≡ some a
        → In a agents
    unfolding list lookup
    In-list s agents k a h found =
        let (ks, keys, there) = laws.elem-keys agents_bucket k s in
        In-lookup_all ks s agents k a (sym (ap (list_keys st s) keys) ∙ h)
          (there ∙ ap is_some found) found

    -- In the order that TopologicalSort of the registry returns, a registered agent stands behind
    -- every other registered agent that it requires, and behind every other one that declares to be
    -- required by it.
    pub topological_sort_respects_records :
        (s t : st.State) (before after : List String) (a b : AgentDescription)
        → topological_sort st s ≡ (t, some (ok (before ++ a.id ∷ after)))
        → lookup st a.id s ≡ some a
        → lookup st b.id s ≡ some b
        → same b.id a.id ≡ false
        → (elem b.id a.requires || elem a.id b.required_by) ≡ true
        → elem b.id before ≡ true
    unfolding topological_sort
    topological_sort_respects_records s t before after a b h fa fb other dep =
        elim (Option-cases (list st s)) [
          | inl failed ↦ absurd (ground (arith, h, failed))
          | inr (agents, listed) ↦
              let in_a = In-list s agents a.id a listed fa in
              let in_b = In-list s agents b.id b listed fb in
              let sorted =
                sync_ordered-ok agents (AgentGraph.topological_sort (declared agents)) s t
                  (before ++ a.id ∷ after) (sym (ap (λ o. sort_listed st o s) listed) ∙ h) in
              topological_sort_respects_hard (declared agents) before after a.id b.id sorted
                (is_agent-declared a agents in_a) (is_agent-declared b agents in_b) other
                (declared_dep a b agents in_a in_b dep)
        ]

  -- A store with no `ClearGraph` is left as it is, whatever the order comes to.
  unsynced :
      (o : Option (List AgentDescription)) (s : st.State)
      → st.clear_graph ≡ none
      → (sort_listed st o s).0 ≡ s
  unfolding sync_graph
  unsynced none s h = refl
  unsynced (some agents) s h = by (AgentGraph.topological_sort (declared agents))
    where
      by : (o : Outcome) → (sync_ordered st agents o s).0 ≡ s
      by (ok l) = ap (λ c. sync_with st c agents s) h
      by (cycle l) = refl
      by no_progress = refl

-- The store that the program opens for the registry has no `ClearGraph`: sorting never syncs its
-- graph, whatever order it comes to.
pub topological_sort_unsynced :
    (kv : Bbolt AgentDescription) (graph : Bbolt Value) (pop : Pop) (fuel : ℕ) (s : Db kv graph)
    → (topological_sort (hybrid kv graph pop fuel) s).0 ≡ s
unfolding topological_sort
topological_sort_unsynced kv graph pop fuel s =
    let st = hybrid kv graph pop fuel in unsynced st (list st s) s refl
