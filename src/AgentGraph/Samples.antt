-- ===== src/AgentGraph/Samples.antt =====
-- Two agents, one of them required by the other through a reverse declaration.
use gapi.AgentGraph.Manager.{start_all, run_over, done, start_all_respects_hard}
use gapi.Prelude.{
  ℕ, ◌+◌, ap, ◌≡◌, refl, true, [], ◌∷◌, same, elem, count, filter, count_p, sort_strings,
}
use gapi.Toposort.Edges.{add_edge, has_edge, same_edge, known_of, edge_set, merge}
use gapi.Toposort.Kahn.{ok, sort, kahn}
use gapi.AgentGraph.{
  Agents, is_agent, copied, append_dep, append_targets, append_reverse, hard_deps, soft_deps,
  topological_sort,
}
use gapi.AgentGraph.Order.{lists}

abbrev agents : Agents
agents =
    ("web", record { requires = []; wants = []; wanted_by = []; required_by = [] })
    ∷ ("zdb", record { requires = []; wants = []; wanted_by = []; required_by = "web" ∷ [] })
    ∷ []

sort-agents : topological_sort agents ≡ ok ("zdb" ∷ "web" ∷ [])
unfolding topological_sort hard_deps soft_deps copied append_reverse append_targets append_dep
    is_agent sort kahn same elem count filter count_p sort_strings known_of edge_set merge add_edge
    has_edge same_edge
sort-agents = refl

-- Both are started, one after the other.
start_both :
    start_all {S = ℕ} (is_agent agents) (λ id n. (n + 1, true)) agents 0
    ≡ (2, "zdb" ∷ "web" ∷ [], done)
unfolding start_all run_over is_agent topological_sort hard_deps soft_deps copied append_reverse
    append_targets append_dep sort kahn same elem count filter count_p sort_strings known_of
    edge_set merge add_edge has_edge same_edge
start_both = refl

start_all_respects_hard_example : elem "zdb" ("zdb" ∷ []) ≡ true
unfolding is_agent lists elem same
start_all_respects_hard_example =
    start_all_respects_hard {S = ℕ} (is_agent agents) (λ id n. (n + 1, true)) agents 0 ("zdb" ∷ [])
      [] "web" "zdb" (ap (λ x. x.1) start_both) refl refl refl refl refl
