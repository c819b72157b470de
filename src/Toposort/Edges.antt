-- ===== src/Toposort/Edges.antt =====
-- The edge sets: `edgeSet` and `merge`.
use gapi.Prelude.{String, Bool, false, not, ◌&&◌, ◌||◌, List, [], ◌∷◌, if◌then◌else◌, same, elem}

-- A node, and one that should start before it.
pub record Edge : Type 0 where
  pub node : String
  pub dep : String

abbrev pub Deps : Type 0
Deps = List (String × List String)

unfoldable pub same_edge : Edge → Edge → Bool
same_edge a b = same a.node b.node && same a.dep b.dep

unfoldable pub has_edge : Edge → List Edge → Bool
has_edge e [] = false
has_edge e (f ∷ es) = same_edge f e || has_edge e es

-- `out[node][dep] = true`
unfoldable pub add_edge : Edge → List Edge → List Edge
add_edge e out = if has_edge e out then out else e ∷ out

-- `known[id] = true`, for each key of `hard`.
unfoldable pub known_of : Deps → List String
known_of [] = []
known_of ((id, deps) ∷ hard) = let rest = known_of hard in if elem id rest then rest else id ∷ rest

module _ (known : List String) where
  -- The inner loop of `edgeSet`: unknown dependencies and self-edges are dropped.
  unfoldable pub node_edges : String → List String → List Edge → List Edge
  node_edges node [] out = out
  node_edges node (dep ∷ list) out = node_edges node list (
      if not (elem dep known) || same dep node
      then out
      else add_edge (record { node = node; dep = dep }) out)

  unfoldable pub edge_set_from : Deps → List Edge → List Edge
  unfolding node_edges
  edge_set_from [] out = out
  edge_set_from ((node, list) ∷ deps) out =
      edge_set_from deps (if elem node known then node_edges node list out else out)

  unfoldable pub edge_set : Deps → List Edge
  unfolding edge_set_from
  edge_set deps = edge_set_from deps []

unfoldable pub add_edges : List Edge → List Edge → List Edge
add_edges [] out = out
add_edges (e ∷ es) out = add_edges es (add_edge e out)

unfoldable pub merge : List Edge → List Edge → List Edge
unfolding add_edges
merge a b = add_edges b (add_edges a [])
