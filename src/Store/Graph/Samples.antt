-- ===== src/Store/Graph/Samples.antt =====
-- A graph of four edges.
use gapi.Prelude.{
  ℕ, ◌≤◌, ◌≡◌, ◌≢◌, refl, sym, String, Bool, true, false, List, [], ◌∷◌, Option, some, same, elem,
  length, filter, count_p, arith, if◌then◌else◌, ◌↔◌, inl, inr,
}
use mathlib.Core.Path.{subst}
use gapi.Prelude.Int.{ℤ, pos, add_int}
use gapi.Store.Graph.{Edge}
use gapi.Store.Graph.Path.{
  found, out_of_fuel, visit, step, run, push_edges, start_round, shortest_path,
}
use gapi.Store.Graph.Path.Rounds.{AllEdges}
use gapi.Store.Graph.Path.Pick.{pick, pop_min, pop_min-IsPop}
use gapi.Store.Graph.Path.Found.{Has, Walk}
use gapi.Store.Graph.Path.Ends.{leaving, shortest_path-ne-out}
use gapi.Store.Graph.Path.Reached.{shortest_path_iff}
use gapi.Store.Graph.Path.Least.{Route, origin, via, shortest_path-least}

abbrev edge_of : String → String → ℕ → Edge
edge_of from to w = record { from = from; to = to; kind = "requires"; weight = pos w }

-- From `a` to `b` it is 5 at once, and 3 through `c`; from `b` there is a way back.
abbrev edges : List Edge
edges = edge_of "a" "b" 5 ∷ edge_of "a" "c" 1 ∷ edge_of "b" "a" 1 ∷ edge_of "c" "b" 2 ∷ []

abbrev graph : String → Option (List Edge)
graph n = some (filter (λ (e : Edge). same n e.from) edges)

abbrev from_a_to_b : List String
from_a_to_b = "a" ∷ "c" ∷ "b" ∷ []

program : Unit {0}
unfolding shortest_path run step visit push_edges start_round pop_min pick elem same add_int filter
    count_p leaving
program = tt

found_b : shortest_path pop_min graph "b" 6 "a" ≡ found from_a_to_b (pos 3)
unfolding program
found_b = refl

filter-AllEdges :
    (P : Edge → Type 0) (p : Edge → Bool) (es : List Edge) (e : Edge)
    → AllEdges P es
    → Has e (filter p es)
    → P e
unfolding filter
filter-AllEdges P p [] e h has = absurd has
filter-AllEdges P p (f ∷ es) e (pf, h) has = by (p f) has (filter-AllEdges P p es e h)
  where
    by :
        (b : Bool)
        → Has e (if b then f ∷ filter p es else filter p es)
        → (Has e (filter p es) → P e)
        → P e
    by true (inl eq) rest = subst P eq pf
    by true (inr has) rest = rest has
    by false has rest = rest has

length-filter : (p : Edge → Bool) (es : List Edge) → length (filter p es) ≡ count_p p es
unfolding filter count_p
length-filter p [] = refl
length-filter p (e ∷ es) = ground (arith, length-filter p es)

abbrev IsLight : Edge → Type 0
IsLight e = (w : ℕ) × (e.weight ≡ pos w) × (w ≤ 5)

weighted : (n : String) (es : List Edge) (e : Edge) → graph n ≡ some es → Has e es → IsLight e
weighted n es e h has =
    filter-AllEdges IsLight (λ f. same n f.from) edges e
      (
        (5, refl, omega arith),
        ((1, refl, omega arith), ((1, refl, omega arith), ((2, refl, omega arith), tt))),
      )
      (subst (Has e) (sym (ground (arith, h))) has)

few : (n : String) (es : List Edge) → graph n ≡ some es → length es ≤ leaving n edges
unfolding leaving
few n es h =
    let same_list : filter (λ (e : Edge). same n e.from) edges ≡ es = ground (arith, h) in
    subst (λ l. length l ≤ leaving n edges) same_list
      (omega (arith, length-filter (λ (e : Edge). same n e.from) edges))

readable : (n : String) → (es : List Edge) × (graph n ≡ some es)
readable n = (filter (λ (e : Edge). same n e.from) edges, refl)

shortest_path-ne-out_example : shortest_path pop_min graph "b" 6 "a" ≢ out_of_fuel
shortest_path-ne-out_example =
    shortest_path-ne-out pop_min pop_min-IsPop graph "b" edges few 6 "a" (omega arith)

shortest_path_iff_example :
    ((path : List String) × (cost : ℤ) × (shortest_path pop_min graph "b" 6 "a" ≡ found path cost))
    ↔ ((path : List String) × (cost : ℤ) × Walk graph "a" path "b" cost)
shortest_path_iff_example =
    shortest_path_iff pop_min pop_min-IsPop graph "b" "a" edges 6 readable few (omega arith)

direct : Route graph "a" "b" 5
unfolding program
direct =
    via (edge_of "a" "b" 5) (edge_of "a" "b" 5 ∷ edge_of "a" "c" 1 ∷ []) 5 origin refl (inl refl)
      refl

-- The way at once costs no less than the path that was found.
shortest_path-least_example : (k : ℕ) × (pos 3 ≡ pos k) × (k ≤ 5)
shortest_path-least_example =
    shortest_path-least pop_min pop_min-IsPop graph "b" "a" 5 weighted 6 from_a_to_b (pos 3) 5
      (omega arith) found_b direct
