-- ===== src/Toposort/Phases.antt =====
-- The rounds of phase 2 of `Sort`: each drops a soft edge or ends.
use gapi.Prelude.{
  ℕ, zero, suc, ◌≤◌, ◌<◌, ◌≡◌, String, Bool, true, not, ◌&&◌, List, [], ◌∷◌, ◌++◌, arith, ◌==◌,
  Bool-cases, ◌⊎◌, inl, inr, elem, count, elem_lem, length, filter, count-filter,
}
use mathlib.Core.Path.{subst}
use mathlib.Core.List.{append_assoc, append-nil}
use gapi.Toposort.Edges.{Edge, has_edge, merge}
use gapi.Toposort.Kahn.{kahn, ok, drop_stuck, phase2}
use gapi.Toposort.Within.{edge, has_edge-merge, has_edge-filter, eq_of_same_edge}
use gapi.Toposort.Loop.{IsInput}
use gapi.Toposort.Residue.{
  IsOrdered, in_degree-eq-zero, elem_of_remaining, kahn-IsOrdered, count-kahn, elem_of_complete,
  complete_of_rank,
}

-- Every edge is between known nodes.
abbrev pub Closed : List String → List Edge → Type 0
Closed known es =
    (n d : String) → has_edge (edge n d) es ≡ true → (elem n known ≡ true) × (elem d known ≡ true)

abbrev pub Ranked : (String → ℕ) → List Edge → Type 0
Ranked rank es = (n d : String) → has_edge (edge n d) es ≡ true → rank d < rank n

-- The nodes of `known`, each as often, with every node behind its dependencies in `edges`.
pub record IsStartOrder (known : List String) (edges : List Edge) (order : List String)
    : Type 0 where
  pub same_nodes : (x : String) → count x order ≡ count x known
  pub ordered : IsOrdered edges [] order

-- In an order every dependency of a node stands before each place of the node.
pub behind :
    (edges : List Edge) (seen before after : List String) (n d : String)
    → IsOrdered edges seen (before ++ n ∷ after)
    → has_edge (edge n d) edges ≡ true
    → elem d (seen ++ before) ≡ true
behind edges seen [] after n d h e = rw append-nil (elem_of_remaining edges seen n d h.0 e)
behind edges seen (x ∷ before) after n d h e =
    rw append_assoc at (behind edges (seen ++ x ∷ []) before after n d h.1 e)

length-filter-le : (p : Edge → Bool) (es : List Edge) → length (filter p es) ≤ length es
unfolding filter
length-filter-le p [] = omega arith
length-filter-le p (e ∷ es) = ground (arith, length-filter-le p es)

-- A filter that drops nothing has every edge pass.
filter_all :
    (p : Edge → Bool) (e : Edge) (es : List Edge)
    → length (filter p es) ≡ length es
    → has_edge e es ≡ true
    → p e ≡ true
unfolding filter has_edge
filter_all p e [] full h = cc
filter_all p e (f ∷ es) full h =
    ground (arith, length-filter-le p es, filter_all p e es, eq_of_same_edge f e)

module _ (known : List String) (distinct : (x : String) → count x known ≤ 1) where
  pub input_of : (es : List Edge) → Closed known es → IsInput known es
  input_of es closed = record {
    distinct = distinct;
    nodes = λ x unknown. in_degree-eq-zero es x (λ d. elim (Bool-cases (has_edge (edge x d) es)) [
      | inl e ↦ let (k, _) = closed x d e in cc
      | inr e ↦ e
    ]);
  }

  pub stuck_of :
      (emitted : List String) (x : String)
      → elem x (filter (λ id. not (elem id emitted)) known) ≡ (elem x known && not (elem x emitted))
  stuck_of emitted x = ground (
    arith,
    count-filter (λ id. not (elem id emitted)) x known,
    elem_lem x known,
    elem_lem x (filter (λ id. not (elem id emitted)) known),
  )

  module _ (hard : List Edge) (hard_closed : Closed known hard) where
    pub merge-Closed : (soft : List Edge) → Closed known soft → Closed known (merge hard soft)
    merge-Closed soft closed n d e =
        ground (arith, has_edge-merge (edge n d) hard soft, closed n d, hard_closed n d)

    drop-Closed :
        (stuck : List String) (soft : List Edge)
        → Closed known soft
        → Closed known (drop_stuck stuck soft)
    unfolding drop_stuck
    drop-Closed stuck soft closed n d e = ground (
      arith,
      has_edge-filter (λ (e : Edge). not (elem e.node stuck && elem e.dep stuck)) (edge n d) soft,
      closed n d,
    )

    -- The order of a complete round is one for the hard and the soft edges.
    pub round-IsStartOrder :
        (soft : List Edge)
        → Closed known soft
        → length (kahn known (merge hard soft)) ≡ length known
        → IsStartOrder known (merge hard soft) (kahn known (merge hard soft))
    round-IsStartOrder soft closed full =
        let input = input_of (merge hard soft) (merge-Closed soft closed) in
        record {
          same_nodes = λ x. ground (
            arith,
            count-kahn known (merge hard soft) input x,
            elem_of_complete known (merge hard soft) input full x,
            elem_lem x known,
            distinct x,
            elem_lem x (kahn known (merge hard soft)),
          );
          ordered = kahn-IsOrdered known (merge hard soft) input;
        }

    abbrev emitted : List Edge → List String
    emitted soft = kahn known (merge hard soft)

    abbrev stuck : List Edge → List String
    stuck soft = filter (λ id. not (elem id (emitted soft))) known

    -- A round that can drop nothing has emitted every node, if the hard edges have no cycle.
    stalled :
        (rank : String → ℕ) (soft : List Edge)
        → Ranked rank hard
        → Closed known soft
        → length (drop_stuck (stuck soft) soft) ≡ length soft
        → length (emitted soft) ≡ length known
    unfolding drop_stuck
    stalled rank soft ranked closed full =
        let both = merge-Closed soft closed in
        complete_of_rank known (merge hard soft) (input_of (merge hard soft) both) rank
          (λ n d e. (both n d e).1)
          λ n d e known_n held waits. ground (
            arith,
            both n d e,
            has_edge-merge (edge n d) hard soft,
            ranked n d,
            filter_all (λ (f : Edge). not (elem f.node (stuck soft) && elem f.dep (stuck soft)))
                (edge n d) soft full,
            stuck_of (emitted soft) n,
            stuck_of (emitted soft) d,
          )

    length-drop_stuck-le :
        (stuck : List String) (soft : List Edge) → length (drop_stuck stuck soft) ≤ length soft
    unfolding drop_stuck
    length-drop_stuck-le stuck soft = length-filter-le _ soft

    -- Phase 2 yields an order if the hard edges have no cycle.
    pub phase2_total :
        (rank : String → ℕ)
        → Ranked rank hard
        → (fuel : ℕ) (soft : List Edge) → Closed known soft
        → length soft < fuel
        → (order : List String) × (phase2 fuel known hard soft ≡ ok order)
    unfolding phase2
    phase2_total rank ranked zero soft closed enough = absurd (omega arith)
    phase2_total rank ranked (suc fuel) soft closed enough =
        elim (Bool-cases (length (emitted soft) == length known)) [
          | inl full ↦ (emitted soft, rw full)
          | inr short ↦ elim (Bool-cases (length (drop_stuck (stuck soft) soft) == length soft)) [
            | inl idle ↦ absurd (ground (arith, stalled rank soft ranked closed))
            | inr moved ↦
                let (order, e) =
                  phase2_total rank ranked fuel (drop_stuck (stuck soft) soft)
                    (drop-Closed (stuck soft) soft closed)
                    (ground (arith, length-drop_stuck-le (stuck soft) soft)) in
                (order, rw (short, moved) e)
          ]
        ]

    phase2_cases :
        (fuel : ℕ) (soft : List Edge) {order : List String}
        → phase2 (suc fuel) known hard soft ≡ ok order
        → (length (emitted soft) ≡ length known) × (emitted soft ≡ order)
          ⊎ (phase2 fuel known hard (drop_stuck (stuck soft) soft) ≡ ok order)
    unfolding phase2
    phase2_cases fuel soft e = ground arith

    -- What phase 2 yields is an order for the hard edges and for the soft edges that it kept.
    pub phase2_sound :
        (fuel : ℕ) (soft : List Edge) {order : List String}
        → Closed known soft
        → phase2 fuel known hard soft ≡ ok order
        → (kept : List Edge) × IsStartOrder known (merge hard kept) order
    unfolding phase2
    phase2_sound zero soft closed e = cc
    phase2_sound (suc fuel) soft closed e = elim (phase2_cases fuel soft e) [
      | inl (full, last) ↦ (
        soft,
        subst (IsStartOrder known (merge hard soft)) last (round-IsStartOrder soft closed full),
      )
      | inr later ↦
          phase2_sound fuel (drop_stuck (stuck soft) soft) (drop-Closed (stuck soft) soft closed)
            later
    ]
