-- ===== src/Toposort/Within.antt =====
-- What stands in an edge set: `edgeSet`, `merge` and the deletion of soft edges.
use gapi.Prelude.{
  ◌≡◌, refl, String, Bool, true, false, not, ◌&&◌, ◌||◌, List, [], ◌∷◌, arith, same, eq_of_same,
  elem, count, elem_lem, filter, ◌≤◌,
}
use gapi.Toposort.Edges.{
  Edge, Deps, same_edge, has_edge, add_edge, known_of, node_edges, edge_set_from, edge_set,
  add_edges, merge,
}

abbrev pub edge : String → String → Edge
edge n d = record { node = n; dep = d }

pub eq_of_same_edge : (e f : Edge) → same_edge e f ≡ true → e ≡ f
unfolding same_edge
eq_of_same_edge e f h = ground (arith, eq_of_same e.node f.node, eq_of_same e.dep f.dep)

has_edge-add_edge :
    (e f : Edge) (out : List Edge) → has_edge e (add_edge f out) ≡ (has_edge e out || same_edge f e)
unfolding add_edge has_edge
has_edge-add_edge e f out = ground (arith, eq_of_same_edge f e)

has_edge-add_edges :
    (e : Edge) (es out : List Edge)
    → has_edge e (add_edges es out) ≡ (has_edge e out || has_edge e es)
unfolding add_edges has_edge
has_edge-add_edges e [] out = ground arith
has_edge-add_edges e (f ∷ es) out =
    ground (arith, has_edge-add_edges e es (add_edge f out), has_edge-add_edge e f out)

-- The union of two edge sets.
pub has_edge-merge :
    (e : Edge) (a b : List Edge) → has_edge e (merge a b) ≡ (has_edge e a || has_edge e b)
unfolding merge has_edge
has_edge-merge e a b =
    ground (arith, has_edge-add_edges e b (add_edges a []), has_edge-add_edges e a [])

pub has_edge-filter :
    (p : Edge → Bool) (e : Edge) (es : List Edge)
    → has_edge e (filter p es) ≡ (has_edge e es && p e)
unfolding has_edge filter
has_edge-filter p e [] = refl
has_edge-filter p e (f ∷ es) = ground (arith, has_edge-filter p e es, eq_of_same_edge f e)

-- `node` lists `dep` among its dependencies in the given map.
abbrev pub declares : Deps → String → String → Bool
declares [] n d = false
declares ((node, list) ∷ deps) n d = same node n && elem d list || declares deps n d

abbrev pub has_key : Deps → String → Bool
has_key [] n = false
has_key ((node, list) ∷ deps) n = same node n || has_key deps n

pub elem-known_of : (hard : Deps) (x : String) → elem x (known_of hard) ≡ has_key hard x
unfolding known_of elem
elem-known_of [] x = refl
elem-known_of ((id, list) ∷ hard) x = ground (arith, elem-known_of hard x, eq_of_same id x)

pub count-known_of : (hard : Deps) (x : String) → count x (known_of hard) ≤ 1
unfolding known_of count
count-known_of [] x = ground arith
count-known_of ((id, list) ∷ hard) x =
    ground (arith, count-known_of hard x, elem_lem id (known_of hard), eq_of_same id x)

module _ (known : List String) where
  has_edge-node_edges :
      (n d node : String) (list : List String) (out : List Edge)
      → has_edge (edge n d) (node_edges known node list out)
        ≡ (has_edge (edge n d) out || same node n && elem d list && elem d known && not (same d n))
  unfolding node_edges elem same_edge
  has_edge-node_edges n d node [] out = ground arith
  has_edge-node_edges n d node (dep ∷ list) out = ground (
    arith,
    has_edge-node_edges n d node list out,
    has_edge-node_edges n d node list (add_edge (edge node dep) out),
    has_edge-add_edge (edge n d) (edge node dep) out,
    eq_of_same dep d,
    eq_of_same node n,
  )

  has_edge-edge_set_from :
      (n d : String) (deps : Deps) (out : List Edge)
      → has_edge (edge n d) (edge_set_from known deps out) ≡ (
          has_edge (edge n d) out
          || elem n known && elem d known && not (same d n) && declares deps n d)
  unfolding edge_set_from
  has_edge-edge_set_from n d [] out = ground arith
  has_edge-edge_set_from n d ((node, list) ∷ deps) out = ground (
    arith,
    has_edge-edge_set_from n d deps out,
    has_edge-edge_set_from n d deps (node_edges known node list out),
    has_edge-node_edges n d node list out,
    eq_of_same node n,
  )

  -- `edgeSet` keeps exactly the declared dependencies between two different known nodes.
  pub has_edge-edge_set :
      (deps : Deps) (n d : String)
      → has_edge (edge n d) (edge_set known deps)
        ≡ (elem n known && elem d known && not (same d n) && declares deps n d)
  unfolding edge_set has_edge
  has_edge-edge_set deps n d = has_edge-edge_set_from n d deps []
