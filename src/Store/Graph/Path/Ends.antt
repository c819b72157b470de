-- ===== src/Store/Graph/Path/Ends.antt =====
-- `ShortestPath` ends, and it finds a path exactly if there is one.
use gapi.Prelude.{
  ℕ, zero, suc, ◌+◌, ◌<◌, ◌≤◌, ◌≡◌, ◌≢◌, refl, ap, ◌∙◌, String, Bool, true, false, not, List, [],
  ◌∷◌, Option, none, some, same, eq_of_same, elem, length, count_p, arith, if◌then◌else◌,
  Bool-cases, inl, inr,
}
use gapi.Store.Graph.{Edge}
use gapi.Store.Graph.Path.{
  Item, Pop, IsPop, out_of_fuel, Round, Status, continue, stop, pushed, push_edges, expand, visit,
  step, run, start_round, shortest_path,
}
use gapi.Store.Graph.Path.Rounds.{Stepped, step-Stepped}

length-push_edges :
    (x : Item) (visited : List String) (es : List Edge) (q : List Item)
    → length (push_edges x visited es q) ≤ length q + length es
unfolding push_edges
length-push_edges x visited [] q = omega arith
length-push_edges x visited (e ∷ es) q =
    omega (arith, length-push_edges x visited es _, by (elem e.to visited))
  where
    by : (b : Bool) → length (if b then q else pushed x e ∷ q) ≤ length q + 1
    by true = omega arith
    by false = omega arith

-- The edges that leave nodes which are not visited yet.
unfoldable pub unvisited : List String → List Edge → ℕ
unvisited visited edges = count_p (λ (e : Edge). not (elem e.from visited)) edges

unfoldable pub leaving : String → List Edge → ℕ
leaving n edges = count_p (λ (e : Edge). same n e.from) edges

unvisited-cons :
    (n : String) (visited : List String) (edges : List Edge)
    → elem n visited ≡ false
    → unvisited (n ∷ visited) edges + leaving n edges ≡ unvisited visited edges
unfolding unvisited leaving count_p elem
unvisited-cons n visited [] new = omega arith
unvisited-cons n visited (e ∷ edges) new =
    ground (arith, unvisited-cons n visited edges new, eq_of_same n e.from)

unvisited-le : (visited : List String) (edges : List Edge) → unvisited visited edges ≤ length edges
unfolding unvisited count_p
unvisited-le visited [] = omega arith
unvisited-le visited (e ∷ edges) = ground (arith, unvisited-le visited edges)

module _ (pop : Pop) (pops : IsPop pop) (neighbors_of : String → Option (List Edge)) (end : String)
    (edges : List Edge)
    (few : (n : String) (es : List Edge)
      → neighbors_of n ≡ some es
      → length es ≤ leaving n edges) where
  -- Each round leaves less to do.
  Stepped-lt :
      (r r' : Round)
      → Stepped pop neighbors_of end r r'
      → length r'.queue + unvisited r'.visited edges < length r.queue + unvisited r.visited edges
  Stepped-lt r r' (x, rest, popped, inl (seen, e)) =
      rw e (omega (arith, pops.same_length r.queue rest x popped))
  Stepped-lt r r' (x, rest, popped, inr (new, other, es, from, e)) = rw e (
      omega (
        arith,
        pops.same_length r.queue rest x popped,
        length-push_edges x (x.node ∷ r.visited) es rest,
        few x.node es from,
        unvisited-cons x.node r.visited edges new,
      ))

  step-ne-out : (r : Round) → step pop neighbors_of end r ≢ stop out_of_fuel
  unfolding step visit
  step-ne-out r = by (pop r.queue)
    where
      expands :
          (x : Item) (rest : List Item) (o : Option (List Edge))
          → expand pop neighbors_of end x (x.node ∷ r.visited) rest o ≢ stop out_of_fuel
      expands x rest none e = cc
      expands x rest (some es) e = cc

      by : (o : Option (Item × List Item)) → visit pop neighbors_of end r o ≢ stop out_of_fuel
      by none e = cc
      by (some (x, rest)) e = elim (Bool-cases (elem x.node r.visited)) [
        | inl seen ↦ ground (arith, e, seen)
        | inr new ↦ elim (Bool-cases (same x.node end)) [
          | inl at_end ↦ ground (arith, e, new, at_end)
          | inr other ↦ expands x rest (neighbors_of x.node) (ground (arith, e, new, other))
        ]
      ]

  run-ne-out :
      (fuel : ℕ) (r : Round)
      → length r.queue + unvisited r.visited edges < fuel
      → run pop neighbors_of end fuel r ≢ out_of_fuel
  unfolding run
  run-ne-out zero r h out = elim h [ ]
  run-ne-out (suc fuel) r h out = by (step pop neighbors_of end r) refl (run-ne-out fuel) out
    where
      by :
          (st : Status)
          → step pop neighbors_of end r ≡ st
          → ((r' : Round)
              → length r'.queue + unvisited r'.visited edges < fuel
              → run pop neighbors_of end fuel r' ≢ out_of_fuel)
          → elim st [ continue r' ↦ run pop neighbors_of end fuel r' | stop t ↦ t ] ≢ out_of_fuel
      by (stop t) is_step rest e = step-ne-out r (is_step ∙ ap stop e)
      by (continue r') is_step rest e =
          rest r'
            (omega (arith, Stepped-lt r r' (step-Stepped pop neighbors_of end r r' is_step), h)) e

  -- The loop of ShortestPath ends within as many rounds as there are edges and two more, if no node
  -- answers with more neighbours than it has edges in the list.
  pub shortest_path-ne-out :
      (fuel : ℕ) (start : String)
      → length edges + 1 < fuel
      → shortest_path pop neighbors_of end fuel start ≢ out_of_fuel
  unfolding shortest_path start_round
  shortest_path-ne-out fuel start h =
      run-ne-out fuel (start_round start) (omega (arith, h, unvisited-le [] edges))
