-- ===== src/Store/Graph/Path/Reached.antt =====
-- `ShortestPath` finds a path exactly if there is one.
use gapi.Prelude.{
  ℕ, ◌+◌, ◌<◌, ◌≤◌, ◌≡◌, refl, sym, ap, ◌∙◌, String, Bool, true, false, not, ◌&&◌, ◌||◌, List, [],
  ◌∷◌, Option, none, some, same, same_refl, eq_of_same, elem, length, arith, if◌then◌else◌,
  Bool-cases, ◌⊎◌, ◌↔◌, inl, inr,
}
use mathlib.Core.Path.{subst}
use gapi.Prelude.Int.{ℤ}
use gapi.Store.Graph.{Edge}
use gapi.Store.Graph.Entries.{leads_to}
use gapi.Store.Graph.Path.{
  Item, nodes, Pop, IsPop, Search, found, Round, continue, stop, pushed, push_edges, expand, visit,
  step, start_round, shortest_path,
}
use gapi.Store.Graph.Path.Rounds.{run_inv, Stepped, step-Stepped}
use gapi.Store.Graph.Path.Found.{Has, Walk, here, along, shortest_path-Walk}
use gapi.Store.Graph.Path.Ends.{leaving, shortest_path-ne-out}

elem-push_edges :
    (d : String) (x : Item) (visited : List String) (es : List Edge) (q : List Item)
    → elem d (nodes (push_edges x visited es q))
      ≡ (elem d (nodes q) || (leads_to d es && not (elem d visited)))
unfolding push_edges leads_to elem
elem-push_edges d x visited [] q = ground arith
elem-push_edges d x visited (e ∷ es) q =
    elem-push_edges d x visited es _ ∙ by (elem e.to visited) refl
  where
    by :
        (b : Bool)
        → elem e.to visited ≡ b
        → (elem d (nodes (if b then q else pushed x e ∷ q))
            || (leads_to d es && not (elem d visited)))
          ≡ (elem d (nodes q) || ((same e.to d || leads_to d es) && not (elem d visited)))
    by true seen = ground (arith, seen, eq_of_same e.to d)
    by false new = ground (arith, new, eq_of_same e.to d)

leads_to-Has : (e : Edge) (es : List Edge) → Has e es → leads_to e.to es ≡ true
unfolding leads_to
leads_to-Has e [] h = absurd h
leads_to-Has e (f ∷ es) (inl eq) =
    ground (arith, ap (λ (g : Edge). same g.to e.to) eq, same_refl e.to)
leads_to-Has e (f ∷ es) (inr h) = ground (arith, leads_to-Has e es h)

module _ (pop : Pop) (pops : IsPop pop) (neighbors_of : String → Option (List Edge)) (end : String)
    (start : String) where
  -- The node is visited, or waits in the queue.
  abbrev known : Round → String → Bool
  known r d = elem d r.visited || elem d (nodes r.queue)

  -- The start is known, and so are the targets of what is visited; the end is not visited.
  abbrev IsClosed : Round → Type 0
  IsClosed r =
      (known r start ≡ true)
      × ((n : String) (es : List Edge) (e : Edge)
          → elem n r.visited ≡ true
          → neighbors_of n ≡ some es
          → Has e es
          → known r e.to ≡ true)
      × (elem end r.visited ≡ false)

  -- What a popped item and a round over its edges leave known.
  still_known :
      (r : Round) (rest : List Item) (x : Item) (d : String)
      → pop r.queue ≡ some (x, rest)
      → elem x.node r.visited ≡ true
      → known r d ≡ true
      → (elem d r.visited || elem d (nodes rest)) ≡ true
  still_known r rest x d popped seen k =
      ground (arith, pops.same_nodes r.queue rest x popped d, seen, k, eq_of_same x.node d)

  now_known :
      (r : Round) (rest : List Item) (x : Item) (es : List Edge) (d : String)
      → pop r.queue ≡ some (x, rest)
      → (known r d || leads_to d es) ≡ true
      → (elem d (x.node ∷ r.visited) || elem d (nodes (push_edges x (x.node ∷ r.visited) es rest)))
        ≡ true
  unfolding elem
  now_known r rest x es d popped k = ground (
    arith,
    pops.same_nodes r.queue rest x popped d,
    elem-push_edges d x (x.node ∷ r.visited) es rest,
    k,
  )

  step-IsClosed :
      (r r' : Round) → IsClosed r → step pop neighbors_of end r ≡ continue r' → IsClosed r'
  unfolding elem
  step-IsClosed r r' (from_start, targets, not_end) h =
      by (step-Stepped pop neighbors_of end r r' h)
    where
      by : Stepped pop neighbors_of end r r' → IsClosed r'
      by (x, rest, popped, inl (seen, e)) = subst IsClosed (sym e) (
        still_known r rest x start popped seen from_start,
        λ n es f visited nb has.
            still_known r rest x f.to popped seen (targets n es f visited nb has),
        not_end,
      )
      by (x, rest, popped, inr (new, other, es, edges, e)) = subst IsClosed (sym e) (
        now_known r rest x es start popped (ground (arith, from_start)),
        λ n fs f visited nb has.
            now_known r rest x es f.to popped (elim (Bool-cases (same x.node n)) [
              | inl here_now ↦
                  ground (arith, leads_to-Has f es (own x n fs es f here_now nb edges has))
              | inr elsewhere ↦
                  ground (arith, targets n fs f (ground (arith, visited, elsewhere)) nb has)
            ]),
        ground (arith, other, not_end),
      )
        where
          own :
              (x : Item) (n : String) (fs es : List Edge) (f : Edge)
              → same x.node n ≡ true
              → neighbors_of n ≡ some fs
              → neighbors_of x.node ≡ some es
              → Has f fs
              → Has f es
          own x n fs es f hit nb edges has =
              let same_list : fs ≡ es =
                ground (arith, nb, edges, ap (λ m. neighbors_of m) (eq_of_same x.node n hit)) in
              subst (Has f) same_list has

  -- Where the search has nothing left, every node that a walk leads to is visited.
  Walk-visited :
      (r : Round) (path : List String) (n : String) (cost : ℤ)
      → IsClosed r
      → r.queue ≡ []
      → Walk neighbors_of start path n cost
      → elem n r.visited ≡ true
  unfolding elem
  Walk-visited r path n cost (from_start, targets, not_end) empty here =
      ground (arith, from_start, ap (λ q. elem start (nodes q)) empty)
  Walk-visited r path n cost closed empty (along {node} e es walk nb has) =
      let behind = Walk-visited r _ node _ closed empty walk in
      ground (arith, closed.1 node es e behind nb has, ap (λ q. elem e.to (nodes q)) empty)

  -- Why a round ends the loop with no path.
  stop_cases :
      (r : Round) (s : Search)
      → step pop neighbors_of end r ≡ stop s
      → ((n : String) → (es : List Edge) × (neighbors_of n ≡ some es))
      → (pop r.queue ≡ none) ⊎ ((path : List String) × (cost : ℤ) × (s ≡ found path cost))
  unfolding step visit
  stop_cases r s h readable = by (pop r.queue) refl h
    where
      expands :
          (x : Item) (rest : List Item)
          → expand pop neighbors_of end x (x.node ∷ r.visited) rest (neighbors_of x.node) ≡ stop s
          → ⊥
      expands x rest e = let (es, nb) = readable x.node in ground (arith, e, nb)

      by :
          (o : Option (Item × List Item))
          → pop r.queue ≡ o
          → visit pop neighbors_of end r o ≡ stop s
          → (pop r.queue ≡ none) ⊎ ((path : List String) × (cost : ℤ) × (s ≡ found path cost))
      by none popped e = inl popped
      by (some (x, rest)) popped e = elim (Bool-cases (elem x.node r.visited)) [
        | inl seen ↦ absurd (ground (arith, e, seen))
        | inr new ↦ elim (Bool-cases (same x.node end)) [
          | inl at_end ↦ inr (x.path, x.cost, ground (arith, e, new, at_end))
          | inr other ↦ absurd (expands x rest (ground (arith, e, new, other)))
        ]
      ]

  -- If the neighbours of every node can be read and are no more than its edges in the list, a search of
  -- as many rounds as there are edges and two more finds a path exactly if there is a walk along edges
  -- from the start to the end.
  pub shortest_path_iff :
      (edges : List Edge) (fuel : ℕ)
      → ((n : String) → (es : List Edge) × (neighbors_of n ≡ some es))
      → ((n : String) (es : List Edge) → neighbors_of n ≡ some es → length es ≤ leaving n edges)
      → length edges + 1 < fuel
      → ((path : List String) × (cost : ℤ) × (shortest_path pop neighbors_of end fuel start
            ≡ found path cost))
        ↔ ((path : List String) × (cost : ℤ) × Walk neighbors_of start path end cost)
  unfolding shortest_path start_round elem
  shortest_path_iff edges fuel readable few enough = (
    λ (path, cost, h).
        (path, cost, shortest_path-Walk pop pops neighbors_of end start fuel path cost h),
    λ (path, cost, walk).
        let (r, closed, last) =
          run_inv pop neighbors_of end IsClosed fuel (start_round start)
            (shortest_path pop neighbors_of end fuel start) step-IsClosed
            (ground (arith, same_refl start), λ n es e h nb has. absurd cc, refl) refl
            (shortest_path-ne-out pop pops neighbors_of end edges few fuel start enough) in
        elim (stop_cases r _ last readable) [
          | inl nothing ↦
              let reached = Walk-visited r path end cost closed (pops.empty r.queue nothing) walk in
              absurd (ground (arith, reached, closed.2))
          | inr done ↦ done
        ],
  )
