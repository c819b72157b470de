-- ===== src/Toposort/Residue.antt =====
-- What `kahn` emits: each node once, behind its dependencies, and all that no cycle holds back.
use gapi.Prelude.{
  ℕ, zero, suc, ◌≤◌, ◌<◌, ◌≡◌, ◌≢◌, refl, ap, String, true, false, not, ◌&&◌, List, [], ◌∷◌, ◌++◌,
  arith, ◌==◌, if◌then◌else◌, Bool-cases, inl, inr, same, eq_of_same, same_refl, elem, count,
  elem_lem, length, count_p, length-le_of_count, count-eq_of_length,
}
use mathlib.Core.List.{append_assoc, append-nil}
use gapi.Toposort.Edges.{Edge, same_edge, has_edge}
use gapi.Toposort.Kahn.{State, in_degree, emit, run, start, kahn}
use gapi.Toposort.Within.{edge}
use gapi.Toposort.Loop.{
  remaining, Inv, IsInput, start-Inv, emit-Inv, front_done, run_ind, run-ready,
}

-- Each node of a list stands behind its dependencies, some of which are in `seen`.
abbrev pub IsOrdered : List Edge → List String → List String → Type 0
IsOrdered edges seen [] = Unit
IsOrdered edges seen (x ∷ xs) = (remaining edges seen x ≡ 0) × IsOrdered edges (seen ++ x ∷ []) xs

IsOrdered-snoc :
    (edges : List Edge) (seen xs : List String) (x : String)
    → IsOrdered edges seen xs
    → remaining edges (seen ++ xs) x ≡ 0
    → IsOrdered edges seen (xs ++ x ∷ [])
IsOrdered-snoc edges seen [] x h r = (rw append-nil at r, tt)
IsOrdered-snoc edges seen (y ∷ xs) x h r =
    (h.0, IsOrdered-snoc edges (seen ++ y ∷ []) xs x h.1 (rw append_assoc r))

pub in_degree-eq-zero :
    (edges : List Edge) (x : String)
    → ((d : String) → has_edge (edge x d) edges ≡ false)
    → in_degree edges x ≡ 0
unfolding in_degree count_p has_edge same_edge
in_degree-eq-zero [] x h = refl
in_degree-eq-zero (e ∷ es) x h =
    ground (arith, h e.dep, same_refl e.dep, in_degree-eq-zero es x (λ d. ground (arith, h d)))

pub elem_of_remaining :
    (edges : List Edge) (order : List String) (n d : String)
    → remaining edges order n ≡ 0
    → has_edge (edge n d) edges ≡ true
    → elem d order ≡ true
unfolding remaining count_p has_edge same_edge
elem_of_remaining [] order n d r h = cc
elem_of_remaining (e ∷ es) order n d r h =
    ground (arith, elem_of_remaining es order n d, eq_of_same e.dep d)

-- A node that still waits, waits for a dependency.
pub blocked :
    (edges : List Edge) (order : List String) (n : String)
    → remaining edges order n ≢ 0
    → (d : String) × (has_edge (edge n d) edges ≡ true) × (elem d order ≡ false)
unfolding remaining count_p has_edge same_edge
blocked [] order n r = absurd (r refl)
blocked (e ∷ es) order n r = elim (Bool-cases (same e.node n && not (elem e.dep order))) [
  | inl here ↦ (e.dep, ground (arith, same_refl e.dep), ground arith)
  | inr later ↦ let (d, h, k) = blocked es order n (λ z. ground arith) in (d, ground arith, k)
]

module _ (known : List String) (edges : List Edge) (input : IsInput known edges) where
  abbrev Good : State → Type 0
  Good s = Inv known edges s × IsOrdered edges [] s.order

  final : Good (run (length known) edges (start known edges))
  unfolding start emit
  final =
      run_ind known edges input Good
        (λ s id rest e (inv, ordered). (
          emit-Inv known edges input s id rest e inv,
          IsOrdered-snoc edges [] s.order id ordered (front_done known edges input s id rest e inv),
        ))
        (length known) (start known edges) (start-Inv known edges input, tt)

  pub kahn-IsOrdered : IsOrdered edges [] (kahn known edges)
  unfolding kahn
  kahn-IsOrdered = final.1

  -- A known node is emitted once, and exactly if all of its dependencies are.
  pub count-kahn :
      (x : String)
      → count x (kahn known edges)
        ≡ (if elem x known && remaining edges (kahn known edges) x == 0 then 1 else 0)
  unfolding kahn count
  count-kahn x =
      let s = run (length known) edges (start known edges) in
      let done : s.ready ≡ [] =
        run-ready known edges input (length known) (start known edges) (start-Inv known edges input)
          (omega arith) in
      ground (arith, final.0.placed x, final.0.degrees x, ap (count x) done)

  abbrev emitted : List String
  emitted = kahn known edges

  count-kahn-le : (x : String) → count x emitted ≤ count x known
  count-kahn-le x = ground (arith, count-kahn x, elem_lem x known)

  -- As many are emitted as are known exactly if every known node is.
  pub elem_of_complete :
      length emitted ≡ length known → (x : String) → elem x known ≡ true → elem x emitted ≡ true
  elem_of_complete full x h = ground (
    arith,
    count-eq_of_length emitted known count-kahn-le (omega arith) x,
    elem_lem x known,
    elem_lem x emitted,
  )

  pub complete_of_elem :
      ((x : String) → elem x known ≡ true → elem x emitted ≡ true) → length emitted ≡ length known
  complete_of_elem all = omega (
    arith,
    length-le_of_count emitted known count-kahn-le,
    length-le_of_count known emitted
        λ x. ground (arith, all x, input.distinct x, elem_lem x known, elem_lem x emitted),
  )

  -- Nothing is held back where the edges between nodes held back descend in a rank.
  module _ (rank : String → ℕ)
      (closed : (n d : String) → has_edge (edge n d) edges ≡ true → elem d known ≡ true)
      (descends : (n d : String)
        → has_edge (edge n d) edges ≡ true
        → elem n known ≡ true
        → elem n emitted ≡ false
        → elem d emitted ≡ false
        → rank d < rank n) where
    elem-below : (k : ℕ) (x : String) → rank x < k → elem x known ≡ true → elem x emitted ≡ true
    elem-below zero x low h = absurd (omega arith)
    elem-below (suc k) x low h = elim (Bool-cases (elem x emitted)) [
      | inl found ↦ found
      | inr held ↦
          let (d, e, waits) =
            blocked edges emitted x (λ z. ground (arith, count-kahn x, elem_lem x emitted)) in
          let found = elem-below k d (omega (arith, descends x d e h held waits)) (closed x d e) in
          cc
    ]

    pub complete_of_rank : length emitted ≡ length known
    complete_of_rank = complete_of_elem (λ x. elem-below (suc (rank x)) x (omega arith))
