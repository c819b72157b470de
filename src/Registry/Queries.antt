-- ===== src/Registry/Queries.antt =====
-- internal/agentreg: lookups, dependencies, and the start order with the sync of the graph.
use gapi.Prelude.{String, List, [], ◌∷◌, ◌++◌, Option, none, some, elem, if◌then◌else◌}
use gapi.Store.Graph.{Edge}
use gapi.Store.Interface.{HybridStore}
use gapi.AgentGraph
use gapi.AgentGraph.{Agents}
use gapi.Toposort.Kahn.{Outcome, ok, cycle, no_progress}
use gapi.Registry.Register.{
  AgentDescription, agents_bucket, edge_kind_requires, edge_kind_wants, edge_to, node_of,
}

abbrev pub cons_agent :
    Option AgentDescription → Option (List AgentDescription) → Option (List AgentDescription)
cons_agent none agents = none
cons_agent (some agent) none = none
cons_agent (some agent) (some agents) = some (agent ∷ agents)

module _ (st : HybridStore AgentDescription) where
  unfoldable pub lookup : String → st.State → Option AgentDescription
  lookup id s = st.get agents_bucket id s

  unfoldable pub lookup_all : List String → st.State → Option (List AgentDescription)
  unfolding lookup
  lookup_all [] s = some []
  lookup_all (k ∷ ks) s = cons_agent (lookup k s) (lookup_all ks s)

  abbrev pub list_keys : st.State → Option (List String) → Option (List AgentDescription)
  list_keys s none = none
  list_keys s (some ks) = lookup_all ks s

  -- `List`.
  unfoldable pub list : st.State → Option (List AgentDescription)
  unfolding lookup_all
  list s = list_keys s (st.keys agents_bucket s)

-- The loop that collects the targets that are not in `all` yet: `seen` holds what `all` holds.
unfoldable pub collect : List Edge → List String → List String
collect [] all = all
collect (e ∷ es) all = collect es (if elem e.to all then all else all ++ e.to ∷ [])

abbrev pub collect_both : Option (List Edge) → Option (List Edge) → Option (List String)
collect_both none wants = none
collect_both (some reqs) none = none
collect_both (some reqs) (some wants) = some (collect wants (collect reqs []))

module _ (st : HybridStore AgentDescription) where
  unfoldable pub get_dependencies : String → st.State → Option (List String)
  unfolding collect
  get_dependencies id s =
      collect_both (st.neighbors id edge_kind_requires s) (st.neighbors id edge_kind_wants s)

  -- `_ = f(s)`: an error is ignored.
  abbrev pub or_same : st.State → Option st.State → st.State
  or_same s none = s
  or_same s (some t) = t

  unfoldable pub sync_edges : (String → Edge) → List String → st.State → st.State
  sync_edges edge [] s = s
  sync_edges edge (dep ∷ deps) s = sync_edges edge deps (or_same s (st.add_edge (edge dep) s))

  unfoldable pub sync_agents : List AgentDescription → st.State → st.State
  unfolding sync_edges
  sync_agents [] s = s
  sync_agents (a ∷ agents) s =
      let t = or_same s (st.add_node (node_of st a) s) in
      let u = sync_edges (edge_to a.id edge_kind_requires) a.requires t in
      let v = sync_edges (edge_to a.id edge_kind_wants) a.wants u in
      let w = sync_edges (λ target. edge_to target edge_kind_wants a.id) a.wanted_by v in
      sync_agents agents
        (sync_edges (λ target. edge_to target edge_kind_requires a.id) a.required_by w)

  abbrev pub sync_with :
      Option (st.State → Option st.State) → List AgentDescription → st.State → st.State
  sync_with none agents s = s
  sync_with (some clear) agents s = sync_agents agents (or_same s (clear s))

  -- `syncGraph`: nothing, if the store has no `ClearGraph`.
  unfoldable pub sync_graph : List AgentDescription → st.State → st.State
  unfolding sync_agents
  sync_graph agents s = sync_with st.clear_graph agents s

-- The four lists of each agent, under its id. Agents are registered under their own ids, so no id
-- stands twice.
unfoldable pub declared : List AgentDescription → Agents
declared [] = []
declared (a ∷ agents) =
    (
      a.id,
      record {
        requires = a.requires;
        wants = a.wants;
        wanted_by = a.wanted_by;
        required_by = a.required_by;
      },
    )
    ∷ declared agents

module _ (st : HybridStore AgentDescription) where
  -- The graph is synced only behind a valid order; `none` is an error of `List`.
  abbrev pub sync_ordered : List AgentDescription → Outcome → st.State → st.State × Option Outcome
  sync_ordered agents (ok order) s = (sync_graph st agents s, some (ok order))
  sync_ordered agents (cycle nodes) s = (s, some (cycle nodes))
  sync_ordered agents no_progress s = (s, some no_progress)

  abbrev pub sort_listed : Option (List AgentDescription) → st.State → st.State × Option Outcome
  sort_listed none s = (s, none)
  sort_listed (some agents) s =
      sync_ordered agents (AgentGraph.topological_sort (declared agents)) s

  -- `TopologicalSort`.
  unfoldable pub topological_sort : st.State → st.State × Option Outcome
  unfolding list declared sync_graph
  topological_sort s = sort_listed (list st s) s
