-- ===== src/Store/Graph/Path/Least.antt =====
-- With weights from 0 up, no walk is cheaper than the path that `ShortestPath` returns.
use gapi.Prelude.{
  ℕ, suc, ◌+◌, ◌*◌, ◌^◌, ◌<◌, ◌≤◌, ◌≡◌, refl, sym, ap, ◌∙◌, String, true, false, ◌&&◌, ◌||◌, List,
  [], ◌∷◌, Option, some, same, same_refl, eq_of_same, elem, arith, leb, Bool-cases, ◌⊎◌, inl, inr,
}
use mathlib.Core.Path.{subst}
use gapi.Prelude.Int.{ℤ, pos, pos_part, ◌≤ℤ◌}
use gapi.Store.Graph.{Edge}
use gapi.Store.Graph.Path.{
  less, Item, All, Pop, IsPop, found, Round, continue, pushed, step, start_round, shortest_path,
}
use gapi.Store.Graph.Path.Rounds.{run_inv_fuel, push_edges-All, Stepped, step-Stepped}
use gapi.Store.Graph.Path.Found.{Has, AllEdges-of_Has, stop-found}
use gapi.Store.Graph.Path.Offers.{
  cost_of, offers, offers-pushed, All-map, is_cheap, is_cheap-offers, is_cheap_mono, is_cheap-le,
}
use gapi.Store.Graph.Path.Priced.{IsPriced, compare, IsPriced-pred, pushed-IsPriced}
use gapi.Store.Graph.Path.Settled.{is_within, settle, after_visit, within_seen, within_new}

-- An item that no other is less than.
All-not_less :
    (x : Item) (rest : List Item)
    → All (λ y. less y x ≡ false) rest
    → All (λ y. x.priority ≤ℤ y.priority) rest
All-not_less x [] h = tt
All-not_less x (y ∷ rest) (here, h) = (ground (arith, here), All-not_less x rest h)

-- A walk from the start, with the sum of its weights as a number.
pub data Route (neighbors_of : String → Option (List Edge)) (start : String)
    : String → ℕ → Type 0 where
  origin : Route neighbors_of start start 0
  via :
      {node : String} {cost : ℕ} (e : Edge) (es : List Edge) (w : ℕ)
      → Route neighbors_of start node cost
      → neighbors_of node ≡ some es
      → Has e es
      → e.weight ≡ pos w
      → Route neighbors_of start e.to (cost + w)

module _ (pop : Pop) (pops : IsPop pop) (neighbors_of : String → Option (List Edge)) (end : String)
    (start : String) (most : ℕ)
    (weighted : (n : String) (es : List Edge) (e : Edge)
      → neighbors_of n ≡ some es
      → Has e es
      → (w : ℕ) × (e.weight ≡ pos w) × (w ≤ most)) where
  record IsLeast (dist : String → ℕ) (n : ℕ) (r : Round) : Type 0 where
    priced : All (IsPriced most n) r.queue
    from_start : is_within dist r start 0 ≡ true
    relaxed :
        (m : String) (es : List Edge) (e : Edge) (w : ℕ)
        → elem m r.visited ≡ true
        → neighbors_of m ≡ some es
        → Has e es
        → e.weight ≡ pos w
        → is_within dist r e.to (dist m + w) ≡ true
    settled : (m : String) → elem m r.visited ≡ true → All (λ y. dist m ≤ cost_of y) r.queue

  -- A route costs at least what its end is settled for, or what some item costs.
  Route-within :
      (dist : String → ℕ) (n : ℕ) (r : Round) (d : String) (c : ℕ)
      → IsLeast dist n r
      → Route neighbors_of start d c
      → ((elem d r.visited && leb (dist d) c) || is_cheap c r.queue) ≡ true
  Route-within dist n r d c least origin =
      ground (arith, least.from_start, is_cheap-offers start 0 r.queue)
  Route-within dist n r d c least (via {node} {cost} e es w route nb has weight) =
      let behind = Route-within dist n r node cost least route in
      elim (Bool-cases (elem node r.visited && leb (dist node) cost)) [
        | inl there ↦ ground (
          arith,
          there,
          least.relaxed node es e w (ground (arith, there)) nb has weight,
          is_cheap-offers e.to (dist node + w) r.queue,
          is_cheap_mono (dist node + w) (cost + w) r.queue,
        )
        | inr not_there ↦ ground (arith, behind, not_there, is_cheap_mono cost (cost + w) r.queue)
      ]

  -- The popped item costs no more than any other.
  least_cost :
      (n : ℕ) (q rest : List Item) (x : Item)
      → pop q ≡ some (x, rest)
      → All (IsPriced most n) q
      → IsPriced most n x × All (IsPriced most n) rest × All (λ y. cost_of x ≤ cost_of y) rest
  least_cost n q rest x popped priced =
      let (px, others) = pops.same_items (IsPriced most n) q rest x popped priced in
      (px, others, both rest px others (All-not_less x rest (pops.least q rest x popped)))
    where
      both :
          (ys : List Item)
          → IsPriced most n x
          → All (IsPriced most n) ys
          → All (λ y. x.priority ≤ℤ y.priority) ys
          → All (λ y. cost_of x ≤ cost_of y) ys
      both [] px h k = tt
      both (y ∷ ys) (cx, qx, rx) ((cy, qy, ry), h) (le, k) =
          (compare most n x y (cx, qx, rx) (cy, qy, ry) le, both ys (cx, qx, rx) h k)

  seen-IsLeast :
      (dist : String → ℕ) (n : ℕ) (r : Round) (rest : List Item) (x : Item)
      → IsLeast dist (suc n) r
      → pop r.queue ≡ some (x, rest)
      → elem x.node r.visited ≡ true
      → IsLeast dist n (record r { queue = rest })
  seen-IsLeast dist n r rest x least popped seen =
      let le =
        (pops.same_items (λ y. dist x.node ≤ cost_of y) r.queue rest x popped
          (least.settled x.node seen)).0 in
      record {
        priced =
            All-map (IsPriced most (suc n)) (IsPriced most n) rest (IsPriced-pred most n)
              (pops.same_items (IsPriced most (suc n)) r.queue rest x popped least.priced).1;
        from_start = within_seen pop pops dist r rest x start 0 popped seen le least.from_start;
        relaxed = λ m es e w visited nb has weight.
            within_seen pop pops dist r rest x e.to (dist m + w) popped seen le
              (least.relaxed m es e w visited nb has weight);
        settled = λ m visited.
            (pops.same_items (λ y. dist m ≤ cost_of y) r.queue rest x popped
              (least.settled m visited)).1;
      }

  -- An edge of the node that was just visited leads to a settled node, or is offered.
  relaxed_own :
      (dist : String → ℕ) (n : ℕ) (r : Round) (rest : List Item) (x : Item) (es : List Edge)
      → IsLeast dist (suc n) r
      → pop r.queue ≡ some (x, rest)
      → IsPriced most (suc n) x
      → neighbors_of x.node ≡ some es
      → (m : String) (fs : List Edge) (e : Edge) (w : ℕ) → same x.node m ≡ true
      → neighbors_of m ≡ some fs
      → Has e fs
      → e.weight ≡ pos w
      → (elem e.to (x.node ∷ r.visited) ≡ true) ⊎ (elem e.to (x.node ∷ r.visited) ≡ false)
      → is_within (settle dist x) (after_visit r x rest es) e.to (settle dist x m + w) ≡ true
  unfolding elem
  relaxed_own dist n r rest x es least popped px edges m fs e w hit nb has weight (inl visited) =
      elim (Bool-cases (same x.node e.to)) [
        | inl loop ↦ ground (arith, loop, hit)
        | inr other ↦
            let at_x =
              (pops.same_items (λ y. dist e.to ≤ cost_of y) r.queue rest x popped
                (least.settled e.to (ground (arith, visited, other)))).0 in
            ground (arith, other, hit, visited, at_x)
      ]
  relaxed_own dist n r rest x es least popped px edges m fs e w hit nb has weight (inr unseen) =
      let same_list : fs ≡ es =
        ground (arith, nb, edges, ap (λ k. neighbors_of k) (eq_of_same x.node m hit)) in
      let mine = subst (Has e) same_list has in
      let (w', weight', le) = weighted x.node es e edges mine in
      let same_weight : w' ≡ w = ap pos_part (sym weight' ∙ weight) in
      let (_, cost) = pushed-IsPriced most n x e w px weight (omega (arith, le, same_weight)) in
      let offered =
        offers-pushed e (cost_of x + w) x (x.node ∷ r.visited) es rest mine unseen
          (omega (arith, cost)) in
      ground (arith, hit, offered)

  new-IsLeast :
      (dist : String → ℕ) (n : ℕ) (r : Round) (rest : List Item) (x : Item) (es : List Edge)
      → IsLeast dist (suc n) r
      → pop r.queue ≡ some (x, rest)
      → elem x.node r.visited ≡ false
      → neighbors_of x.node ≡ some es
      → IsLeast (settle dist x) n (after_visit r x rest es)
  unfolding elem
  new-IsLeast dist n r rest x es least popped new edges =
      let (px, others, cheapest) = least_cost (suc n) r.queue rest x popped least.priced in
      record {
        priced =
            push_edges-All (IsPriced most n) x (x.node ∷ r.visited) es rest
              (AllEdges-of_Has _ es (λ e has. (pushed_of px e has).0))
              (All-map (IsPriced most (suc n)) (IsPriced most n) rest (IsPriced-pred most n)
                others);
        from_start = within_new pop pops dist r rest x es start 0 popped new least.from_start;
        relaxed = λ m fs e w visited nb has weight. elim (Bool-cases (same x.node m)) [
          | inl here_now ↦
              relaxed_own dist n r rest x es least popped px edges m fs e w here_now nb has weight
                (Bool-cases (elem e.to (x.node ∷ r.visited)))
          | inr elsewhere ↦
              subst (λ k. is_within (settle dist x) (after_visit r x rest es) e.to (k + w) ≡ true)
                (unsettled m elsewhere)
                (within_new pop pops dist r rest x es e.to (dist m + w) popped new
                  (least.relaxed m fs e w (ground (arith, visited, elsewhere)) nb has weight))
        ];
        settled = λ m visited. elim (Bool-cases (same x.node m)) [
          | inl here_now ↦
              bounded px m (cost_of x) (omega arith) (ground (arith, here_now)) cheapest
          | inr elsewhere ↦
              let (at_x, at_rest) =
                pops.same_items (λ y. dist m ≤ cost_of y) r.queue rest x popped
                  (least.settled m (ground (arith, visited, elsewhere))) in
              bounded px m (dist m) at_x (ground (arith, elsewhere)) at_rest
        ];
      }
    where
      pushed_of :
          IsPriced most (suc n) x
          → (e : Edge) → Has e es
          → IsPriced most n (pushed x e) × (cost_of x ≤ cost_of (pushed x e))
      pushed_of px e has =
          let (w, weight, le) = weighted x.node es e edges has in
          let (priced, cost) = pushed-IsPriced most n x e w px weight le in
          (priced, omega (arith, cost))

      unsettled : (m : String) → same x.node m ≡ false → dist m ≡ settle dist x m
      unsettled m miss = ground (arith, miss)

      bounded :
          IsPriced most (suc n) x
          → (m : String) (k : ℕ) → k ≤ cost_of x
          → settle dist x m ≡ k
          → All (λ y. k ≤ cost_of y) rest
          → All (λ y. settle dist x m ≤ cost_of y) (after_visit r x rest es).queue
      bounded px m k le is_k all =
          subst (λ j. All (λ y. j ≤ cost_of y) (after_visit r x rest es).queue) (sym is_k)
            (push_edges-All (λ y. k ≤ cost_of y) x (x.node ∷ r.visited) es rest
              (AllEdges-of_Has _ es (λ e has. omega (arith, (pushed_of px e has).1, le))) all)

  IsLeastAfter : ℕ → Round → Type 0
  IsLeastAfter n r = (dist : String → ℕ) × IsLeast dist n r

  step-IsLeast :
      (n : ℕ) (r r' : Round)
      → IsLeastAfter (suc n) r
      → step pop neighbors_of end r ≡ continue r'
      → IsLeastAfter n r'
  unfolding IsLeastAfter
  step-IsLeast n r r' (dist, least) h = by (step-Stepped pop neighbors_of end r r' h)
    where
      by : Stepped pop neighbors_of end r r' → IsLeastAfter n r'
      by (x, rest, popped, inl (seen, e)) =
          subst (IsLeastAfter n) (sym e) (dist, seen-IsLeast dist n r rest x least popped seen)
      by (x, rest, popped, inr (new, other, es, edges, e)) =
          subst (IsLeastAfter n) (sym e)
            (settle dist x, new-IsLeast dist n r rest x es least popped new edges)

  -- Where all weights are from 0 up to a bound and the rounds are too few for a sum to overflow, the
  -- cost of the path that is found is a number, and no route to the end costs less.
  pub shortest_path-least :
      (fuel : ℕ) (path : List String) (cost : ℤ) (c : ℕ)
      → fuel * most < 2 ^ 63
      → shortest_path pop neighbors_of end fuel start ≡ found path cost
      → Route neighbors_of start end c
      → (k : ℕ) × (cost ≡ pos k) × (k ≤ c)
  unfolding shortest_path start_round IsLeastAfter offers elem
  shortest_path-least fuel path cost c fits h route =
      let first : IsLeast (λ m. 0) fuel (start_round start) = record {
        priced = ((refl, refl, omega (arith, fits)), tt);
        from_start = ground (arith, same_refl start);
        relaxed = λ m es e w visited nb has weight. absurd cc;
        settled = λ m visited. absurd cc;
      } in
      let (n, r, (dist, least), last) =
        run_inv_fuel pop neighbors_of end IsLeastAfter fuel (start_round start) (found path cost)
          step-IsLeast (λ m. 0, first) h (λ e. cc) in
      let (x, rest, popped, new, at_end, _, same_cost) =
        stop-found pop pops neighbors_of end start r path cost last in
      let (px, others, cheapest) = least_cost (suc n) r.queue rest x popped least.priced in
      let all =
        pops.all_items (λ y. cost_of x ≤ cost_of y) r.queue rest x popped (omega arith) cheapest in
      let not_visited : elem end r.visited ≡ false =
        sym (ap (λ m. elem m r.visited) at_end) ∙ new in
      let within = Route-within dist (suc n) r end c least route in
      (
        cost_of x,
        sym same_cost ∙ px.0,
        is_cheap-le c (cost_of x) r.queue all (ground (arith, within, not_visited)),
      )
