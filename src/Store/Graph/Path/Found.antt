-- ===== src/Store/Graph/Path/Found.antt =====
-- The path that `ShortestPath` returns is a walk along edges of the graph.
use gapi.Prelude.{
  ℕ, ◌≡◌, refl, sym, String, false, List, [], ◌∷◌, ◌++◌, Option, none, some, same, elem, arith,
  Bool-cases, ◌⊎◌, inl, inr, eq_of_same,
}
use mathlib.Core.Path.{subst}
use gapi.Prelude.Int.{ℤ, pos, add_int}
use gapi.Store.Graph.{Edge}
use gapi.Store.Graph.Path.{
  Item, All, Pop, IsPop, found, Round, continue, stop, expand, visit, step, start_round,
  shortest_path,
}
use gapi.Store.Graph.Path.Rounds.{AllEdges, run_inv, push_edges-All, Stepped, step-Stepped}

-- The edge is one of the list.
abbrev pub Has : Edge → List Edge → Type 0
Has e [] = ⊥
Has e (f ∷ es) = (f ≡ e) ⊎ Has e es

-- A path along edges, with the sum of their weights.
pub data Walk (neighbors_of : String → Option (List Edge)) (start : String)
    : List String → String → ℤ → Type 0 where
  here : Walk neighbors_of start (start ∷ []) start (pos 0)
  along :
      {path : List String} {node : String} {cost : ℤ} (e : Edge) (es : List Edge)
      → Walk neighbors_of start path node cost
      → neighbors_of node ≡ some es
      → Has e es
      → Walk neighbors_of start (path ++ e.to ∷ []) e.to (add_int cost e.weight)

pub AllEdges-of_Has :
    (P : Edge → Type 0) (es : List Edge) → ((e : Edge) → Has e es → P e) → AllEdges P es
AllEdges-of_Has P [] h = tt
AllEdges-of_Has P (e ∷ es) h = (h e (inl refl), AllEdges-of_Has P es (λ f has. h f (inr has)))

module _ (pop : Pop) (pops : IsPop pop) (neighbors_of : String → Option (List Edge)) (end : String)
    (start : String) where
  abbrev IsWalked : Item → Type 0
  IsWalked x = Walk neighbors_of start x.path x.node x.cost

  step-IsWalked :
      (r r' : Round)
      → All IsWalked r.queue
      → step pop neighbors_of end r ≡ continue r'
      → All IsWalked r'.queue
  step-IsWalked r r' walked h = by (step-Stepped pop neighbors_of end r r' h)
    where
      by : Stepped pop neighbors_of end r r' → All IsWalked r'.queue
      by (x, rest, popped, inl (seen, e)) =
          subst (λ (q : Round). All IsWalked q.queue) (sym e)
            (pops.same_items IsWalked r.queue rest x popped walked).1
      by (x, rest, popped, inr (new, other, es, edges, e)) =
          let (walk, others) = pops.same_items IsWalked r.queue rest x popped walked in
          subst (λ (q : Round). All IsWalked q.queue) (sym e)
            (push_edges-All IsWalked x (x.node ∷ r.visited) es rest
              (AllEdges-of_Has _ es (λ f has. along f es walk edges has)) others)

  pub stop-found :
      (r : Round) (path : List String) (cost : ℤ)
      → step pop neighbors_of end r ≡ stop (found path cost)
      → (x : Item) × (rest : List Item) × (pop r.queue ≡ some (x, rest))
        × (elem x.node r.visited ≡ false)
        × (x.node ≡ end)
        × (x.path ≡ path)
        × (x.cost ≡ cost)
  unfolding step visit
  stop-found r path cost h = by (pop r.queue) refl h
    where
      expands :
          (x : Item) (rest : List Item) (o : Option (List Edge))
          → expand pop neighbors_of end x (x.node ∷ r.visited) rest o ≡ stop (found path cost)
          → ⊥
      expands x rest none e = cc
      expands x rest (some es) e = cc

      by :
          (o : Option (Item × List Item))
          → pop r.queue ≡ o
          → visit pop neighbors_of end r o ≡ stop (found path cost)
          → (x : Item) × (rest : List Item) × (pop r.queue ≡ some (x, rest))
            × (elem x.node r.visited ≡ false)
            × (x.node ≡ end)
            × (x.path ≡ path)
            × (x.cost ≡ cost)
      by none popped e = absurd cc
      by (some (x, rest)) popped e = elim (Bool-cases (elem x.node r.visited)) [
        | inl seen ↦ absurd (ground (arith, e, seen))
        | inr new ↦ elim (Bool-cases (same x.node end)) [
          | inl at_end ↦ (
            x,
            rest,
            popped,
            new,
            eq_of_same x.node end at_end,
            ground (arith, e, new, at_end),
            ground (arith, e, new, at_end),
          )
          | inr other ↦
              absurd (expands x rest (neighbors_of x.node) (ground (arith, e, new, other)))
        ]
      ]

  -- The path that is found is a walk along edges from the start to the end, and its cost is the sum
  -- of their weights.
  pub shortest_path-Walk :
      (fuel : ℕ) (path : List String) (cost : ℤ)
      → shortest_path pop neighbors_of end fuel start ≡ found path cost
      → Walk neighbors_of start path end cost
  unfolding shortest_path start_round
  shortest_path-Walk fuel path cost h =
      let (r, walked, last) =
        run_inv pop neighbors_of end (λ (q : Round). All IsWalked q.queue) fuel (start_round start)
          (found path cost) step-IsWalked (here, tt) h (λ e. cc) in
      let (x, rest, popped, _, at_end, same_path, same_cost) = stop-found r path cost last in
      let walk = (pops.same_items IsWalked r.queue rest x popped walked).0 in
      subst (λ c. Walk neighbors_of start path end c) same_cost
        (subst (λ p. Walk neighbors_of start p end x.cost) same_path
          (subst (λ n. Walk neighbors_of start x.path n x.cost) at_end walk))
