-- ===== src/Store/Graph/Path/Offers.antt =====
-- What the queue of `ShortestPath` offers: nodes, for at most a cost.
use gapi.Prelude.{
  ℕ, ◌≤◌, ◌≡◌, refl, sym, String, Bool, true, false, ◌&&◌, ◌||◌, List, [], ◌∷◌, same, same_refl,
  elem, arith, if◌then◌else◌, leb, inl, inr,
}
use mathlib.Core.Path.{subst}
use gapi.Prelude.Int.{pos_part}
use gapi.Store.Graph.{Edge}
use gapi.Store.Graph.Path.{Item, All, pushed, push_edges}
use gapi.Store.Graph.Path.Found.{Has}

abbrev pub cost_of : Item → ℕ
cost_of y = pos_part y.cost

-- An item of the queue leads to `d` for at most `b`.
unfoldable pub offers : String → ℕ → List Item → Bool
offers d b [] = false
offers d b (y ∷ q) = (same y.node d && leb (cost_of y) b) || offers d b q

abbrev pub Declines : String → ℕ → Item → Type 0
Declines d b y = (same y.node d && leb (cost_of y) b) ≡ false

pub offers-All : (d : String) (b : ℕ) (q : List Item) → offers d b q ≡ false → All (Declines d b) q
unfolding offers
offers-All d b [] h = tt
offers-All d b (y ∷ q) h = (ground (arith, h), offers-All d b q (ground (arith, h)))

pub All-offers : (d : String) (b : ℕ) (q : List Item) → All (Declines d b) q → offers d b q ≡ false
unfolding offers
All-offers d b [] h = refl
All-offers d b (y ∷ q) (hy, h) = ground (arith, hy, All-offers d b q h)

-- What is offered does not go below a bound of all costs.
pub offers-le :
    (d : String) (b n : ℕ) (q : List Item)
    → All (λ y. n ≤ cost_of y) q
    → offers d b q ≡ true
    → n ≤ b
unfolding offers
offers-le d b n [] all h = absurd cc
offers-le d b n (y ∷ q) (hy, all) h = ground (arith, hy, h, offers-le d b n q all)

pub offers-push_edges :
    (d : String) (b : ℕ) (x : Item) (visited : List String) (es : List Edge) (q : List Item)
    → offers d b q ≡ true
    → offers d b (push_edges x visited es q) ≡ true
unfolding push_edges offers
offers-push_edges d b x visited [] q h = h
offers-push_edges d b x visited (e ∷ es) q h =
    offers-push_edges d b x visited es _ (by (elem e.to visited))
  where
    by : (c : Bool) → offers d b (if c then q else pushed x e ∷ q) ≡ true
    by true = h
    by false = ground (arith, h)

pub offers-pushed :
    (e : Edge) (b : ℕ) (x : Item) (visited : List String) (es : List Edge) (q : List Item)
    → Has e es
    → elem e.to visited ≡ false
    → cost_of (pushed x e) ≤ b
    → offers e.to b (push_edges x visited es q) ≡ true
unfolding push_edges offers
offers-pushed e b x visited [] q has new le = absurd has
offers-pushed e b x visited (f ∷ es) q (inr has) new le =
    offers-pushed e b x visited es _ has new le
offers-pushed e b x visited (f ∷ es) q (inl eq) new le = offers-push_edges e.to b x visited es _ (
    subst (λ (g : Edge). offers e.to b (if elem g.to visited then q else pushed x g ∷ q) ≡ true)
      (sym eq) (ground (arith, new, le, same_refl e.to)))

pub All-map : (P Q : Item → Type 0) (q : List Item) → ((y : Item) → P y → Q y) → All P q → All Q q
All-map P Q [] f h = tt
All-map P Q (y ∷ q) f (hy, h) = (f y hy, All-map P Q q f h)

pub offers_mono :
    (d : String) (b c : ℕ) (q : List Item) → b ≤ c → offers d b q ≡ true → offers d c q ≡ true
unfolding offers
offers_mono d b c [] le h = h
offers_mono d b c (y ∷ q) le h = ground (arith, le, h, offers_mono d b c q le)

-- An item of the queue costs at most `b`.
unfoldable pub is_cheap : ℕ → List Item → Bool
is_cheap b [] = false
is_cheap b (y ∷ q) = leb (cost_of y) b || is_cheap b q

pub is_cheap-offers :
    (d : String) (b : ℕ) (q : List Item) → offers d b q ≡ true → is_cheap b q ≡ true
unfolding offers is_cheap
is_cheap-offers d b [] h = h
is_cheap-offers d b (y ∷ q) h = ground (arith, h, is_cheap-offers d b q)

pub is_cheap_mono : (b c : ℕ) (q : List Item) → b ≤ c → is_cheap b q ≡ true → is_cheap c q ≡ true
unfolding is_cheap
is_cheap_mono b c [] le h = h
is_cheap_mono b c (y ∷ q) le h = ground (arith, le, h, is_cheap_mono b c q le)

pub is_cheap-le :
    (b n : ℕ) (q : List Item) → All (λ y. n ≤ cost_of y) q → is_cheap b q ≡ true → n ≤ b
unfolding is_cheap
is_cheap-le b n [] all h = absurd cc
is_cheap-le b n (y ∷ q) (hy, all) h = ground (arith, hy, h, is_cheap-le b n q all)
