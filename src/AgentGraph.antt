-- ===== src/AgentGraph.antt =====
-- core/agentmgr/graph.go: the start order of agents, from their four kinds of declarations.
--
-- The map of agents is a list in the order in which the map is walked, each id standing once.
pub mod Order
pub mod Manager
mod Samples
use gapi.Prelude.{String, Bool, false, ◌||◌, List, [], ◌∷◌, ◌++◌, if◌then◌else◌, same}
use gapi.Toposort.Edges.{Deps}
use gapi.Toposort.Kahn.{Outcome, sort}

pub record Agent : Type 0 where
  pub requires : List String
  pub wants : List String
  pub wanted_by : List String
  pub required_by : List String

abbrev pub Agents : Type 0
Agents = List (String × Agent)

-- `_, known := agents[target]`
unfoldable pub is_agent : Agents → String → Bool
is_agent [] target = false
is_agent ((id, a) ∷ agents) target = same id target || is_agent agents target

-- The copied lists: of a field of each agent, under the agent's id.
unfoldable pub copied : (Agent → List String) → Agents → Deps
copied field [] = []
copied field ((id, a) ∷ agents) = (id, field a) ∷ copied field agents

-- `deps[target] = append(deps[target], id)`, for a target that is a key.
unfoldable pub append_dep : String → String → Deps → Deps
append_dep target id [] = []
append_dep target id ((node, list) ∷ deps) =
    if same node target
    then (node, list ++ id ∷ []) ∷ deps
    else (node, list) ∷ append_dep target id deps

-- The loop over one agent's targets.
unfoldable pub append_targets : Agents → String → List String → Deps → Deps
unfolding is_agent append_dep
append_targets known id [] deps = deps
append_targets known id (target ∷ targets) deps =
    append_targets known id targets
      (if is_agent known target then append_dep target id deps else deps)

-- The loop over the agents, for one kind of reverse edge.
unfoldable pub append_reverse : Agents → (Agent → List String) → Agents → Deps → Deps
unfolding append_targets
append_reverse known field [] deps = deps
append_reverse known field ((id, a) ∷ agents) deps =
    append_reverse known field agents (append_targets known id (field a) deps)

unfoldable pub hard_deps : Agents → Deps
unfolding copied append_reverse
hard_deps agents =
    append_reverse agents (λ a. a.required_by) agents (copied (λ a. a.requires) agents)

unfoldable pub soft_deps : Agents → Deps
unfolding copied append_reverse
soft_deps agents = append_reverse agents (λ a. a.wanted_by) agents (copied (λ a. a.wants) agents)

-- `TopologicalSort`.
unfoldable pub topological_sort : Agents → Outcome
unfolding hard_deps soft_deps
topological_sort agents = sort (hard_deps agents) (soft_deps agents)
