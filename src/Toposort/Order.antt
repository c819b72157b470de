-- ===== src/Toposort/Order.antt =====
-- What `Sort` promises: a start order that respects every hard dependency, an error for hard
-- cycles only, and soft dependencies respected where they close no cycle.
use gapi.Prelude.{
  ℕ, suc, ◌<◌, ◌≡◌, ◌≢◌, ◌↔◌, refl, sym, ◌∙◌, String, Bool, true, false, not, ◌&&◌, List, [], ◌∷◌,
  ◌++◌, arith, ◌==◌, if◌then◌else◌, Bool-cases, ◌⊎◌, inl, inr, elem, count, elem-append, elem_lem,
  length, same, eq_of_same, sort_strings, ==_iff,
}
use gapi.Toposort.Edges.{Edge, Deps, has_edge, merge, known_of, edge_set}
use gapi.Toposort.Kahn.{kahn, stuck_nodes, ok, cycle, phase2, sort}
use gapi.Toposort.Within.{
  edge, has_edge-merge, has_edge-edge_set, declares, has_key, elem-known_of, count-known_of,
}
use gapi.Toposort.Loop.{IsInput}
use gapi.Toposort.Residue.{
  IsOrdered, elem_of_remaining, kahn-IsOrdered, elem_of_complete, complete_of_rank,
}
use gapi.Toposort.Phases.{
  Closed, Ranked, IsStartOrder, behind, input_of, stuck_of, phase2_total, phase2_sound,
}

-- `n` depends on `d` by the map `deps`: both are nodes (keys of `hard`), and they differ.
abbrev pub depends : Deps → Deps → String → String → Bool
depends hard deps n d = has_key hard n && has_key hard d && not (same d n) && declares deps n d

abbrev pub IsRanking : Deps → Deps → (String → ℕ) → Type 0
IsRanking hard deps rank = (n d : String) → depends hard deps n d ≡ true → rank d < rank n

index : String → List String → ℕ
index x [] = 0
index x (y ∷ ys) = if same y x then 0 else suc (index x ys)

-- In an order a dependency has the lower place.
index-lt :
    (edges : List Edge) (seen xs : List String) (n d : String)
    → IsOrdered edges seen xs
    → has_edge (edge n d) edges ≡ true
    → elem n xs ≡ true
    → (elem d seen ≡ true) ⊎ (index d xs < index n xs)
unfolding index elem
index-lt edges seen [] n d h e m = cc
index-lt edges seen (x ∷ xs) n d h e m = ground (
  arith,
  index-lt edges (seen ++ x ∷ []) xs n d h.1 e,
  eq_of_same x n,
  elem_of_remaining edges seen x d h.0,
  elem-append d seen (x ∷ []),
)

elem_of_empty : (x : String) (xs : List String) → length xs ≡ 0 → elem x xs ≡ false
unfolding elem
elem_of_empty x [] h = refl
elem_of_empty x (y ∷ ys) h = absurd (omega arith)

module _ (hard soft : Deps) where
  abbrev pub known : List String
  known = known_of hard

  abbrev pub hard_edges : List Edge
  hard_edges = edge_set known hard

  abbrev pub soft_edges : List Edge
  soft_edges = edge_set known soft

  pub edge-depends :
      (deps : Deps) (n d : String)
      → has_edge (edge n d) (edge_set known deps) ≡ depends hard deps n d
  edge-depends deps n d =
      rw (has_edge-edge_set known deps n d, elem-known_of hard n, elem-known_of hard d)

  pub edge_set-Closed : (deps : Deps) → Closed known (edge_set known deps)
  edge_set-Closed deps n d e = ground (arith, has_edge-edge_set known deps n d)

  pub hard_input : IsInput known hard_edges
  hard_input = input_of known (count-known_of hard) hard_edges (edge_set-Closed hard)

  hard_stuck : List String
  hard_stuck = stuck_nodes known hard_edges

  -- The residue of the hard edges is what Kahn's algorithm holds back.
  pub elem-stuck :
      (x : String)
      → elem x (stuck_nodes known hard_edges)
        ≡ (elem x known && not (elem x (kahn known hard_edges)))
  unfolding stuck_nodes elem
  elem-stuck x = elim (Bool-cases (length (kahn known hard_edges) == length known)) [
    | inl full ↦
        rw full
          (ground (arith, elem_of_complete known hard_edges hard_input ((==_iff _ _).0 full) x))
    | inr short ↦ rw short (stuck_of known (count-known_of hard) (kahn known hard_edges) x)
  ]

  -- With nothing stuck, the hard edges are ranked by their places in Kahn's order.
  Ranked-of_none :
      length (stuck_nodes known hard_edges) ≡ 0
      → Ranked (λ x. index x (kahn known hard_edges)) hard_edges
  unfolding elem
  Ranked-of_none none n d e =
      let (n_known, _) = edge_set-Closed hard n d e in
      ground (
        arith,
        index-lt hard_edges [] (kahn known hard_edges) n d
            (kahn-IsOrdered known hard_edges hard_input) e,
        elem-stuck n,
        elem_of_empty n (stuck_nodes known hard_edges),
      )

  pub none_of_Ranked :
      (rank : String → ℕ) → Ranked rank hard_edges → length (stuck_nodes known hard_edges) ≡ 0
  unfolding stuck_nodes
  none_of_Ranked rank ranked = ground (
    arith,
    complete_of_rank known hard_edges hard_input rank (λ n d e. (edge_set-Closed hard n d e).1)
        (λ n d e _ _ _. ranked n d e),
  )

  -- Without a residue `Sort` yields an order.
  pub sort_of_none :
      length (stuck_nodes known hard_edges) ≡ 0
      → (order : List String) × (sort hard soft ≡ ok order)
  unfolding sort
  sort_of_none none =
      let (order, e) =
        phase2_total known (count-known_of hard) hard_edges (edge_set-Closed hard) _
          (Ranked-of_none none) (suc (length soft_edges)) soft_edges (edge_set-Closed soft)
          (omega arith) in
      (order, rw ((==_iff (length (stuck_nodes known hard_edges)) 0).1 none) e)

  pub sort_cases :
      (sort hard soft ≡ cycle (sort_strings (stuck_nodes known hard_edges)))
        × (length (stuck_nodes known hard_edges) ≢ 0)
      ⊎ (length (stuck_nodes known hard_edges) ≡ 0)
        × (sort hard soft ≡ phase2 (suc (length soft_edges)) known hard_edges soft_edges)
  unfolding sort
  sort_cases = elim (Bool-cases (length (stuck_nodes known hard_edges) == 0)) [
    | inl none ↦ inr ((==_iff _ _).0 none, rw none)
    | inr some_stuck ↦ inl (rw some_stuck, λ z. ground arith)
  ]

  sorted :
      {order : List String}
      → sort hard soft ≡ ok order
      → (kept : List Edge) × IsStartOrder known (merge hard_edges kept) order
  sorted e = elim sort_cases [
    | inl (failed, _) ↦ cc
    | inr (_, runs) ↦
        phase2_sound known (count-known_of hard) hard_edges (edge_set-Closed hard) _ soft_edges
          (edge_set-Closed soft) (sym runs ∙ e)
  ]

-- A returned order holds each key of `hard` once and nothing else.
pub sort_nodes :
    (hard soft : Deps) (order : List String)
    → sort hard soft ≡ ok order
    → (x : String) → count x order ≡ (if has_key hard x then 1 else 0)
sort_nodes hard soft order e x =
    let (kept, start) = sorted hard soft e in
    ground (
      arith,
      start.same_nodes x,
      count-known_of hard x,
      elem-known_of hard x,
      elem_lem x (known_of hard),
    )

-- In a returned order every hard dependency of a node stands before the node.
pub sort_respects_hard :
    (hard soft : Deps) (before after : List String) (n d : String)
    → sort hard soft ≡ ok (before ++ n ∷ after)
    → depends hard hard n d ≡ true
    → elem d before ≡ true
sort_respects_hard hard soft before after n d e h =
    let (kept, start) = sorted hard soft e in
    behind (merge (edge_set (known_of hard) hard) kept) [] before after n d start.ordered (
      ground (
        arith,
        has_edge-merge (edge n d) (edge_set (known_of hard) hard) kept,
        edge-depends hard soft hard n d,
      ))

-- `Sort` yields an order exactly if the hard dependencies have a ranking, that is, no cycle.
pub sort-ok_iff :
    (hard soft : Deps)
    → ((rank : String → ℕ) × IsRanking hard hard rank)
      ↔ ((order : List String) × (sort hard soft ≡ ok order))
sort-ok_iff hard soft = (
  λ (rank, ranked). sort_of_none hard soft (
      none_of_Ranked hard soft rank
        λ n d e. ranked n d (sym (edge-depends hard soft hard n d) ∙ e)),
  λ (order, e). elim (sort_cases hard soft) [
    | inl (failed, _) ↦ cc
    | inr (none, _) ↦ (
      λ x. index x (kahn (known_of hard) (edge_set (known_of hard) hard)),
      λ n d h. Ranked-of_none hard soft none n d (edge-depends hard soft hard n d ∙ h),
    )
  ],
)
