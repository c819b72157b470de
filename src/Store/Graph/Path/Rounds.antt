-- ===== src/Store/Graph/Path/Rounds.antt =====
-- The rounds of `ShortestPath`: one induction for what a round keeps, and enough rounds.
use gapi.Prelude.{
  ℕ, zero, suc, ◌≡◌, ◌≢◌, refl, sym, ap, ◌∙◌, String, Bool, true, false, List, [], ◌∷◌, Option,
  none, some, same, elem, arith, if◌then◌else◌, Bool-cases, ◌⊎◌, inl, inr,
}
use gapi.Store.Graph.{Edge}
use gapi.Store.Graph.Path.{
  Item, All, Pop, Search, out_of_fuel, Round, Status, continue, stop, pushed, push_edges, expand,
  visit, step, run,
}

abbrev round_of : Round → Status → Round
round_of r (continue r') = r'
round_of r (stop s) = r

-- Every edge of a list.
abbrev pub AllEdges : (Edge → Type 0) → List Edge → Type 0
AllEdges P [] = Unit
AllEdges P (e ∷ es) = P e × AllEdges P es

pub push_edges-All :
    (P : Item → Type 0) (x : Item) (visited : List String) (es : List Edge) (q : List Item)
    → AllEdges (λ e. P (pushed x e)) es
    → All P q
    → All P (push_edges x visited es q)
unfolding push_edges
push_edges-All P x visited [] q h all = all
push_edges-All P x visited (e ∷ es) q (pe, h) all =
    push_edges-All P x visited es _ h (by (elem e.to visited))
  where
    by : (b : Bool) → All P (if b then q else pushed x e ∷ q)
    by true = all
    by false = (pe, all)

module _ (pop : Pop) (neighbors_of : String → Option (List Edge)) (end : String) where
  -- What holds at first, and is kept by every round that is left, holds at the round that ends the
  -- loop.
  pub run_inv_fuel :
      (P : ℕ → Round → Type 0) (fuel : ℕ) (r : Round) (s : Search)
      → ((n : ℕ) (r r' : Round) → P (suc n) r → step pop neighbors_of end r ≡ continue r' → P n r')
      → P fuel r
      → run pop neighbors_of end fuel r ≡ s
      → s ≢ out_of_fuel
      → (n : ℕ) × (r' : Round) × P (suc n) r' × (step pop neighbors_of end r' ≡ stop s)
  unfolding run
  run_inv_fuel P zero r s keeps p h not_out = absurd (not_out (sym h))
  run_inv_fuel P (suc fuel) r s keeps p h not_out =
      by (step pop neighbors_of end r) refl (λ r' p'. run_inv_fuel P fuel r' s keeps p') h
    where
      by :
          (st : Status)
          → step pop neighbors_of end r ≡ st
          → ((r' : Round)
              → P fuel r'
              → run pop neighbors_of end fuel r' ≡ s
              → s ≢ out_of_fuel
              → (n : ℕ) × (q : Round) × P (suc n) q × (step pop neighbors_of end q ≡ stop s))
          → elim st [ continue r' ↦ run pop neighbors_of end fuel r' | stop t ↦ t ] ≡ s
          → (n : ℕ) × (q : Round) × P (suc n) q × (step pop neighbors_of end q ≡ stop s)
      by (continue r') is_step rest e = rest r' (keeps fuel r r' p is_step) e not_out
      by (stop t) is_step rest e = (fuel, r, p, is_step ∙ ap stop e)

  -- The same, for what does not count the rounds.
  pub run_inv :
      (P : Round → Type 0) (fuel : ℕ) (r : Round) (s : Search)
      → ((r r' : Round) → P r → step pop neighbors_of end r ≡ continue r' → P r')
      → P r
      → run pop neighbors_of end fuel r ≡ s
      → s ≢ out_of_fuel
      → (r' : Round) × P r' × (step pop neighbors_of end r' ≡ stop s)
  run_inv P fuel r s keeps p h not_out =
      let (_, r', p', last) = run_inv_fuel (λ n q. P q) fuel r s (λ n. keeps) p h not_out in
      (r', p', last)

  -- What a round did that did not end the loop.
  abbrev pub Stepped : Round → Round → Type 0
  Stepped r r' =
      (x : Item) × (rest : List Item) × (pop r.queue ≡ some (x, rest))
      × (((elem x.node r.visited ≡ true) × (r' ≡ record r { queue = rest }))
          ⊎ ((elem x.node r.visited ≡ false)
              × (same x.node end ≡ false)
              × (es : List Edge) × (neighbors_of x.node ≡ some es)
              × (r' ≡ record {
                queue = push_edges x (x.node ∷ r.visited) es rest;
                visited = x.node ∷ r.visited;
              })))

  pub step-Stepped : (r r' : Round) → step pop neighbors_of end r ≡ continue r' → Stepped r r'
  unfolding step visit
  step-Stepped r r' h = by (pop r.queue) refl h
    where
      on_edges :
          (x : Item) (rest : List Item)
          → pop r.queue ≡ some (x, rest)
          → elem x.node r.visited ≡ false
          → same x.node end ≡ false
          → (o : Option (List Edge)) → neighbors_of x.node ≡ o
          → expand pop neighbors_of end x (x.node ∷ r.visited) rest o ≡ continue r'
          → Stepped r r'
      on_edges x rest popped new other none edges e = absurd cc
      on_edges x rest popped new other (some es) edges e =
          (x, rest, popped, inr (new, other, es, edges, sym (ap (round_of r) e)))

      by :
          (o : Option (Item × List Item))
          → pop r.queue ≡ o
          → visit pop neighbors_of end r o ≡ continue r'
          → Stepped r r'
      by none popped e = absurd cc
      by (some (x, rest)) popped e = elim (Bool-cases (elem x.node r.visited)) [
        | inl seen ↦ (x, rest, popped, inl (seen, sym (ap (round_of r) (rw seen at e))))
        | inr new ↦ elim (Bool-cases (same x.node end)) [
          | inl at_end ↦ absurd (ground (arith, e, new, at_end))
          | inr other ↦
              on_edges x rest popped new other (neighbors_of x.node) refl
                (ground (arith, e, new, other))
        ]
      ]
