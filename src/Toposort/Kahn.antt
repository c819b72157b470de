-- ===== src/Toposort/Kahn.antt =====
-- Kahn's algorithm (`kahn`), the residue that it leaves (`stuckNodes`) and `Sort`.
use gapi.Prelude.{
  ℕ, zero, suc, ◌-◌, String, not, ◌&&◌, List, [], ◌∷◌, ◌++◌, map, ◌==◌, if◌then◌else◌, same, elem,
  length, filter, count_p, sort_strings,
}
use gapi.Toposort.Edges.{Edge, Deps, known_of, edge_set, merge}

pub record State : Type 0 where
  pub in_deg : String → ℕ
  pub ready : List String
  pub order : List String

-- `inDeg[node]++` for each dependency of the node.
unfoldable pub in_degree : List Edge → String → ℕ
in_degree edges id = count_p (λ (e : Edge). same e.node id) edges

-- `dependents[dep]`
unfoldable pub dependents : List Edge → String → List String
dependents edges id = map (λ (e : Edge). e.node) (filter (λ (e : Edge). same id e.dep) edges)

-- `m[k] = v`
abbrev pub update : (String → ℕ) → String → ℕ → String → ℕ
update m k v x = if same k x then v else m x

-- The loop over `dependents[id]`: the degrees after it, and `unlocked`. A degree counts the
-- dependencies that are not emitted, so it is never 0 where it is decremented
-- (`Invariant.count_le`), and the subtraction is exact.
unfoldable pub unlock : (String → ℕ) → List String → (String → ℕ) × List String
unlock deg [] = (deg, [])
unlock deg (d ∷ ds) =
    let n = deg d - 1 in
    let (deg', unlocked) = unlock (update deg d n) ds in
    (deg', if n == 0 then d ∷ unlocked else unlocked)

-- One round of the loop: `id` is taken from the front of `ready`.
unfoldable pub emit : List Edge → State → String → List String → State
unfolding dependents unlock
emit edges s id rest =
    let (deg, unlocked) = unlock s.in_deg (dependents edges id) in
    record { in_deg = deg; ready = rest ++ sort_strings unlocked; order = s.order ++ id ∷ [] }

abbrev pub step : List Edge → State → List String → State
step edges s [] = s
step edges s (id ∷ rest) = emit edges s id rest

-- `for len(ready) > 0`: the fuel bounds the rounds, and `Loop.run-ready` shows that one round for
-- each known node is enough.
unfoldable pub run : ℕ → List Edge → State → State
run zero edges s = s
run (suc fuel) edges s = run fuel edges (step edges s s.ready)

unfoldable pub start : List String → List Edge → State
unfolding in_degree
start known edges = record {
  in_deg = in_degree edges;
  ready = sort_strings (filter (λ id. in_degree edges id == 0) known);
  order = [];
}

unfoldable pub kahn : List String → List Edge → List String
unfolding run start emit
kahn known edges = (run (length known) edges (start known edges)).order

-- `stuckNodes`: the nodes not emitted, none if as many are emitted as are known.
unfoldable pub stuck_nodes : List String → List Edge → List String
stuck_nodes known edges =
    let emitted = kahn known edges in
    if length emitted == length known then [] else filter (λ id. not (elem id emitted)) known

pub data Outcome : Type 0 where
  ok : List String → Outcome
  cycle : List String → Outcome
  no_progress : Outcome

-- One pass over `softEdges`: the pairs with both ends in the stuck set are deleted.
unfoldable pub drop_stuck : List String → List Edge → List Edge
drop_stuck stuck = filter (λ (e : Edge). not (elem e.node stuck && elem e.dep stuck))

unfoldable pub phase2 : ℕ → List String → List Edge → List Edge → Outcome
unfolding drop_stuck
phase2 zero known hard soft = no_progress
phase2 (suc fuel) known hard soft =
    let emitted = kahn known (merge hard soft) in
    let stuck = filter (λ id. not (elem id emitted)) known in
    let kept = drop_stuck stuck soft in
    let rest = phase2 fuel known hard kept in
    if length emitted == length known
    then ok emitted
    else if length kept == length soft
    then no_progress
    else rest

-- `Sort`. Each further round of phase 2 drops a soft edge, so the fuel is their number and one.
unfoldable pub sort : Deps → Deps → Outcome
unfolding known_of edge_set phase2 stuck_nodes
sort hard soft =
    let known = known_of hard in
    let hard_edges = edge_set known hard in
    let soft_edges = edge_set known soft in
    let stuck = stuck_nodes known hard_edges in
    if length stuck == 0
    then phase2 (suc (length soft_edges)) known hard_edges soft_edges
    else cycle (sort_strings stuck)
