-- ===== src/Store/Graph/Path/Priced.antt =====
-- What the items of the queue cost, where no sum overflows.
use gapi.Prelude.{ℕ, suc, ◌+◌, ◌*◌, ◌^◌, ◌<◌, ◌≤◌, ◌≡◌, refl, sym, ap, ◌∙◌, arith}
use mathlib.Core.Path.{subst}
use gapi.Prelude.Int.{pos, pos_part, ◌≤ℤ◌, add_int, add_int-pos}
use gapi.Store.Graph.{Edge}
use gapi.Store.Graph.Path.{Item, pushed}
use gapi.Store.Graph.Path.Offers.{cost_of}

module _ (most : ℕ) where
  -- The cost is a number, the priority, and leaves room for as many edges as there are rounds left.
  abbrev pub IsPriced : ℕ → Item → Type 0
  IsPriced n y =
      (y.cost ≡ pos (cost_of y)) × (y.priority ≡ y.cost) × (cost_of y + n * most < 2 ^ 63)

  pub compare :
      (n : ℕ) (x y : Item)
      → IsPriced n x
      → IsPriced n y
      → x.priority ≤ℤ y.priority
      → cost_of x ≤ cost_of y
  compare n x y (cx, qx, rx) (cy, qy, ry) le =
      let ordered : pos (cost_of x) ≤ℤ pos (cost_of y) =
        subst (λ z. z ≤ℤ pos (cost_of y)) (qx ∙ cx) (subst (λ z. x.priority ≤ℤ z) (qy ∙ cy) le) in
      omega (arith, ordered)

  pub room : (n : ℕ) → suc n * most ≡ n * most + most
  room n = grind arith

  pub IsPriced-pred : (n : ℕ) (y : Item) → IsPriced (suc n) y → IsPriced n y
  IsPriced-pred n y (c, p, fits) = (c, p, omega (arith, room n, fits))

  -- What an edge of the popped item costs.
  pub pushed-IsPriced :
      (n : ℕ) (x : Item) (e : Edge) (w : ℕ)
      → IsPriced (suc n) x
      → e.weight ≡ pos w
      → w ≤ most
      → IsPriced n (pushed x e) × (cost_of (pushed x e) ≡ cost_of x + w)
  pushed-IsPriced n x e w (c, p, fits) weight le =
      let sum : add_int x.cost e.weight ≡ pos (cost_of x + w) =
        ap (λ z. add_int z e.weight) c
        ∙ ap (λ z. add_int (pos (cost_of x)) z) weight
        ∙ add_int-pos (cost_of x) w (omega (arith, room n, fits, le)) in
      let cost : cost_of (pushed x e) ≡ cost_of x + w = ap pos_part sum in
      ((sum ∙ ap pos (sym cost), refl, omega (arith, cost, room n, fits, le)), cost)
