-- ===== src/Store/Graph/Path/Pick.antt =====
-- A queue that takes the first of the items that cost least: what `container/heap` is relied on for
-- can be met.
use gapi.Prelude.{
  suc, ◌≡◌, refl, sym, ap, ◌∙◌, String, Bool, true, false, ◌||◌, List, [], ◌∷◌, Option, none, some,
  same, elem, length, arith, if◌then◌else◌,
}
use mathlib.Core.Path.{subst}
use gapi.Prelude.Int.{◌≤ℤ◌, leb_int}
use gapi.Store.Graph.Path.{less, Item, nodes, All, Pop, IsPop}

unfoldable pub pick : Item → List Item → Item × List Item
pick y [] = (y, [])
pick y (z ∷ q) =
    let (x, rest) = pick (if leb_int y.priority z.priority then y else z) q in
    (x, (if leb_int y.priority z.priority then z else y) ∷ rest)

unfoldable pub pop_min : Pop
unfolding pick
pop_min [] = none
pop_min (y ∷ q) = some (pick y q)

length-pick : (y : Item) (q : List Item) → length (pick y q).1 ≡ length q
unfolding pick
length-pick y [] = refl
length-pick y (z ∷ q) = ap suc (length-pick (if leb_int y.priority z.priority then y else z) q)

elem-pick :
    (y : Item) (q : List Item) (d : String)
    → elem d (nodes (y ∷ q)) ≡ (same (pick y q).0.node d || elem d (nodes (pick y q).1))
unfolding pick elem
elem-pick y [] d = refl
elem-pick y (z ∷ q) d = by (leb_int y.priority z.priority) (λ x. elem-pick x q d)
  where
    by :
        (b : Bool)
        → ((x : Item)
            → elem d (nodes (x ∷ q)) ≡ (same (pick x q).0.node d || elem d (nodes (pick x q).1)))
        → (same y.node d || (same z.node d || elem d (nodes q))) ≡ (
            same (pick (if b then y else z) q).0.node d
            || (same (if b then z else y).node d || elem d (nodes (pick (if b then y else z) q).1)))
    by true ih = ground (arith, ih y)
    by false ih = ground (arith, ih z)

All-pick :
    (P : Item → Type 0) (y : Item) (q : List Item)
    → All P (y ∷ q)
    → P (pick y q).0 × All P (pick y q).1
unfolding pick
All-pick P y [] h = (h.0, tt)
All-pick P y (z ∷ q) (py, (pz, h)) =
    by (leb_int y.priority z.priority) (All-pick P y q (py, h)) (All-pick P z q (pz, h))
  where
    by :
        (b : Bool)
        → P (pick y q).0 × All P (pick y q).1
        → P (pick z q).0 × All P (pick z q).1
        → P (pick (if b then y else z) q).0
          × (P (if b then z else y) × All P (pick (if b then y else z) q).1)
    by true (a, b) _ = (a, (pz, b))
    by false _ (a, b) = (a, (py, b))

All-unpick :
    (P : Item → Type 0) (y : Item) (q : List Item)
    → P (pick y q).0
    → All P (pick y q).1
    → All P (y ∷ q)
unfolding pick
All-unpick P y [] p h = (p, tt)
All-unpick P y (z ∷ q) p h = by (leb_int y.priority z.priority) p h (λ x. All-unpick P x q)
  where
    by :
        (b : Bool)
        → P (pick (if b then y else z) q).0
        → P (if b then z else y) × All P (pick (if b then y else z) q).1
        → ((x : Item) → P (pick x q).0 → All P (pick x q).1 → All P (x ∷ q))
        → All P (y ∷ z ∷ q)
    by true p (pz, h) ih = let (py, rest) = ih y p h in (py, (pz, rest))
    by false p (py, h) ih = let (pz, rest) = ih z p h in (py, (pz, rest))

least-pick :
    (y : Item) (q : List Item)
    → ((pick y q).0.priority ≤ℤ y.priority)
      × All (λ z. (pick y q).0.priority ≤ℤ z.priority) (pick y q).1
unfolding pick
least-pick y [] = (omega arith, tt)
least-pick y (z ∷ q) = by (leb_int y.priority z.priority) refl (λ x. least-pick x q)
  where
    by :
        (b : Bool)
        → leb_int y.priority z.priority ≡ b
        → ((x : Item)
            → ((pick x q).0.priority ≤ℤ x.priority)
              × All (λ w. (pick x q).0.priority ≤ℤ w.priority) (pick x q).1)
        → ((pick (if b then y else z) q).0.priority ≤ℤ y.priority)
          × (((pick (if b then y else z) q).0.priority ≤ℤ (if b then z else y).priority)
              × All
                  (λ w. (pick (if b then y else z) q).0.priority ≤ℤ w.priority)
                  (pick (if b then y else z) q).1)
    by true le ih = ((ih y).0, (ground (arith, (ih y).0, le), (ih y).1))
    by false gt ih = (ground (arith, (ih z).0, gt), (ground (arith, (ih z).0, gt), (ih z).1))

All-less :
    (x : Item) (rest : List Item)
    → All (λ z. x.priority ≤ℤ z.priority) rest
    → All (λ z. less z x ≡ false) rest
All-less x [] h = tt
All-less x (z ∷ rest) (here, h) = (ground (arith, here), All-less x rest h)

pop_min-eq :
    (q rest : List Item) (x : Item)
    → pop_min q ≡ some (x, rest)
    → (y : Item) × (ys : List Item) × (q ≡ y ∷ ys) × (pick y ys ≡ (x, rest))
unfolding pop_min
pop_min-eq [] rest x h = absurd cc
pop_min-eq (y ∷ ys) rest x h = (y, ys, refl, ap (unwrap (y, ys)) h)
  where
    unwrap : Item × List Item → Option (Item × List Item) → Item × List Item
    unwrap d none = d
    unwrap d (some p) = p

pub pop_min-IsPop : IsPop pop_min
unfolding pop_min
pop_min-IsPop = record {
  empty = when_empty;
  same_length = λ q rest x h.
      let (y, ys, eq, picked) = pop_min-eq q rest x h in
      ap length eq ∙ ap suc (sym (length-pick y ys) ∙ ap (λ p. length p.1) picked);
  same_nodes = λ q rest x h d.
      let (y, ys, eq, picked) = pop_min-eq q rest x h in
      ap (λ l. elem d (nodes l)) eq
      ∙ elem-pick y ys d
      ∙ ap (λ p. same p.0.node d || elem d (nodes p.1)) picked;
  same_items = λ P q rest x h all.
      let (y, ys, eq, picked) = pop_min-eq q rest x h in
      subst (λ p. P p.0 × All P p.1) picked (All-pick P y ys (subst (All P) eq all));
  all_items = λ P q rest x h px all.
      let (y, ys, eq, picked) = pop_min-eq q rest x h in
      subst (All P) (sym eq) (
        All-unpick P y ys (subst (λ p. P p.0) (sym picked) px)
          (subst (λ p. All P p.1) (sym picked) all));
  least = λ q rest x h.
      let (y, ys, eq, picked) = pop_min-eq q rest x h in
      subst (λ p. All (λ z. less z p.0 ≡ false) p.1) picked
        (All-less (pick y ys).0 (pick y ys).1 (least-pick y ys).1);
}
  where
    when_empty : (q : List Item) → pop_min q ≡ none → q ≡ []
    when_empty [] h = refl
    when_empty (y ∷ q) h = absurd cc
