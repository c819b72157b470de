-- ===== src/Toposort/Cycles.antt =====
-- What `Sort` says of cycles: hard ones are reported, soft ones never block.
use gapi.Prelude.{
  ℕ, suc, ◌≡◌, ◌≢◌, sym, ◌∙◌, inl, inr, String, true, not, ◌&&◌, List, [], ◌∷◌, ◌++◌, arith, elem,
  elem_lem, length, count-sort_strings, sort_strings, ==_iff,
}
use gapi.Toposort.Edges.{Edge, Deps, merge}
use gapi.Toposort.Kahn.{kahn, stuck_nodes, ok, cycle, no_progress, phase2, sort}
use gapi.Toposort.Within.{edge, has_edge-merge, count-known_of}
use mathlib.Core.Path.{subst}
use gapi.Toposort.Residue.{IsOrdered, kahn-IsOrdered, blocked, count-kahn, complete_of_rank}
use gapi.Toposort.Phases.{Closed, Ranked, behind, input_of, merge-Closed}
use gapi.Toposort.Order.{
  depends, IsRanking, edge-depends, edge_set-Closed, hard_input, elem-stuck, none_of_Ranked,
  sort_of_none, sort_cases, known, hard_edges, soft_edges,
}

-- Phase 2 never stops for want of progress.
pub sort-ne-no_progress : (hard soft : Deps) → sort hard soft ≢ no_progress
sort-ne-no_progress hard soft e = elim (sort_cases hard soft) [
  | inl (failed, _) ↦ cc
  | inr (none, _) ↦ let (order, runs) = sort_of_none hard soft none in cc
]

elem-ids :
    (hard soft : Deps) (ids : List String) (x : String)
    → sort hard soft ≡ cycle ids
    → elem x ids
      ≡ (elem x (known hard soft) && not (elem x (kahn (known hard soft) (hard_edges hard soft))))
elem-ids hard soft ids x e = elim (sort_cases hard soft) [
  | inl (failed, _) ↦
      let named : ids ≡ sort_strings (stuck_nodes (known hard soft) (hard_edges hard soft)) = cc in
      rw named (
        ground (
          arith,
          elem-stuck hard soft x,
          elem_lem x (stuck_nodes (known hard soft) (hard_edges hard soft)),
          elem_lem x (sort_strings (stuck_nodes (known hard soft) (hard_edges hard soft))),
          count-sort_strings x (stuck_nodes (known hard soft) (hard_edges hard soft)),
        ))
  | inr (none, _) ↦ let (order, runs) = sort_of_none hard soft none in cc
]

-- Each node that the error names is a key of `hard` and depends on another node that it names.
pub sort_cycle :
    (hard soft : Deps) (ids : List String) (n : String)
    → sort hard soft ≡ cycle ids
    → elem n ids ≡ true
    → (d : String) × (depends hard hard n d ≡ true) × (elem d ids ≡ true)
unfolding elem
sort_cycle hard soft ids n e m =
    let emitted = kahn (known hard soft) (hard_edges hard soft) in
    let (d, h, waits) = blocked (hard_edges hard soft) emitted n (λ z. ground (
      arith,
      elem-ids hard soft ids n e,
      elem_lem n emitted,
      count-kahn (known hard soft) (hard_edges hard soft) (hard_input hard soft) n,
    )) in
    (
      d,
      sym (edge-depends hard soft hard n d) ∙ h,
      ground (arith, elem-ids hard soft ids d e, edge_set-Closed hard soft hard n d),
    )

-- One complete round ends phase 2.
phase2_first :
    (fuel : ℕ) (known : List String) (hard soft : List Edge)
    → length (kahn known (merge hard soft)) ≡ length known
    → phase2 (suc fuel) known hard soft ≡ ok (kahn known (merge hard soft))
unfolding phase2
phase2_first fuel known hard soft full = rw ((==_iff _ _).1 full)

module _ (hard soft : Deps) (rank : String → ℕ) (rh : IsRanking hard hard rank)
    (rs : IsRanking hard soft rank) where
  both : List Edge
  both = merge (hard_edges hard soft) (soft_edges hard soft)

  both-Closed : Closed (known hard soft) both
  unfolding both
  both-Closed =
      merge-Closed (known hard soft) (count-known_of hard) (hard_edges hard soft)
        (edge_set-Closed hard soft hard) (soft_edges hard soft) (edge_set-Closed hard soft soft)

  both-Ranked : Ranked rank both
  unfolding both
  both-Ranked n d e = ground (
    arith,
    has_edge-merge (edge n d) (hard_edges hard soft) (soft_edges hard soft),
    edge-depends hard soft hard n d,
    edge-depends hard soft soft n d,
    rh n d,
    rs n d,
  )

  both_full : length (kahn (known hard soft) both) ≡ length (known hard soft)
  both_full =
      complete_of_rank (known hard soft) both
        (input_of (known hard soft) (count-known_of hard) both both-Closed) rank
        (λ n d e. (both-Closed n d e).1) (λ n d e _ _ _. both-Ranked n d e)

  -- A ranking of both settles `Sort` in its first round.
  sort_first : sort hard soft ≡ ok (kahn (known hard soft) both)
  unfolding both
  sort_first = elim (sort_cases hard soft) [
    | inl (_, held) ↦ absurd (
        held (
          none_of_Ranked hard soft rank
            (λ n d e. rh n d (sym (edge-depends hard soft hard n d) ∙ e))))
    | inr (_, runs) ↦
        runs
        ∙ phase2_first (length (soft_edges hard soft)) (known hard soft) (hard_edges hard soft)
            (soft_edges hard soft) both_full
  ]

-- Where the hard and the soft dependencies together have a ranking, the order respects the soft
-- ones too.
pub sort_respects_soft :
    (hard soft : Deps) (rank : String → ℕ) (before after : List String) (n d : String)
    → IsRanking hard hard rank
    → IsRanking hard soft rank
    → sort hard soft ≡ ok (before ++ n ∷ after)
    → depends hard soft n d ≡ true
    → elem d before ≡ true
unfolding both
sort_respects_soft hard soft rank before after n d rh rs e h =
    let edges = merge (hard_edges hard soft) (soft_edges hard soft) in
    let emitted : kahn (known hard soft) edges ≡ before ++ n ∷ after =
      cc (sort_first hard soft rank rh rs) in
    behind edges [] before after n d
      (subst (IsOrdered edges []) emitted (
        kahn-IsOrdered (known hard soft) edges (
          input_of (known hard soft) (count-known_of hard) edges
            (both-Closed hard soft rank rh rs))))
      (ground (
        arith,
        has_edge-merge (edge n d) (hard_edges hard soft) (soft_edges hard soft),
        edge-depends hard soft soft n d,
      ))
