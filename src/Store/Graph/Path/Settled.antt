-- ===== src/Store/Graph/Path/Settled.antt =====
-- What is settled or offered, from one round to the next.
use gapi.Prelude.{
  ℕ, ◌≤◌, ◌≡◌, String, Bool, true, false, ◌&&◌, ◌||◌, List, ◌∷◌, some, same, eq_of_same, elem,
  arith, if◌then◌else◌, leb, Bool-cases, inl, inr,
}
use gapi.Store.Graph.{Edge}
use gapi.Store.Graph.Path.{Item, Pop, IsPop, Round, push_edges}
use gapi.Store.Graph.Path.Offers.{
  cost_of, offers, Declines, offers-All, All-offers, offers-push_edges,
}

-- A node is settled by its distance, or offered, for at most `b`.
abbrev pub is_within : (String → ℕ) → Round → String → ℕ → Bool
is_within dist r d b = (elem d r.visited && leb (dist d) b) || offers d b r.queue

abbrev pub settle : (String → ℕ) → Item → String → ℕ
settle dist x m = if same x.node m then cost_of x else dist m

abbrev pub after_visit : Round → Item → List Item → List Edge → Round
after_visit r x rest es = record {
  queue = push_edges x (x.node ∷ r.visited) es rest;
  visited = x.node ∷ r.visited;
}

module _ (pop : Pop) (pops : IsPop pop) where
  pub offers-pop :
      (d : String) (b : ℕ) (q rest : List Item) (x : Item)
      → pop q ≡ some (x, rest)
      → offers d b q ≡ true
      → ((same x.node d && leb (cost_of x) b) || offers d b rest) ≡ true
  offers-pop d b q rest x popped h =
      elim (Bool-cases ((same x.node d && leb (cost_of x) b) || offers d b rest)) [
        | inl yes_ ↦ yes_
        | inr none_of ↦
            let all =
              pops.all_items (Declines d b) q rest x popped (ground (arith, none_of))
                (offers-All d b rest (ground (arith, none_of))) in
            absurd (ground (arith, h, All-offers d b q all))
      ]

  -- A node that is popped again was settled for no more.
  pub within_seen :
      (dist : String → ℕ) (r : Round) (rest : List Item) (x : Item) (d : String) (b : ℕ)
      → pop r.queue ≡ some (x, rest)
      → elem x.node r.visited ≡ true
      → dist x.node ≤ cost_of x
      → is_within dist r d b ≡ true
      → is_within dist (record r { queue = rest }) d b ≡ true
  within_seen dist r rest x d b popped seen le h =
      ground (arith, seen, le, h, offers-pop d b r.queue rest x popped, eq_of_same x.node d)

  pub within_new :
      (dist : String → ℕ) (r : Round) (rest : List Item) (x : Item) (es : List Edge) (d : String)
      (b : ℕ)
      → pop r.queue ≡ some (x, rest)
      → elem x.node r.visited ≡ false
      → is_within dist r d b ≡ true
      → is_within (settle dist x) (after_visit r x rest es) d b ≡ true
  unfolding elem
  within_new dist r rest x es d b popped new h = ground (
    arith,
    new,
    h,
    offers-pop d b r.queue rest x popped,
    offers-push_edges d b x (x.node ∷ r.visited) es rest,
    eq_of_same x.node d,
  )
