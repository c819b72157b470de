-- ===== src/Toposort/Loop.antt =====
-- The loop of `kahn`: its invariant, and that it ends.
use gapi.Prelude.{
  ℕ, zero, suc, ◌+◌, ◌-◌, ◌≤◌, ◌≡◌, refl, ap, ◌⊎◌, inl, inr, String, false, not, ◌&&◌, List, [],
  ◌∷◌, ◌++◌, arith, ltb, ◌==◌, if◌then◌else◌, same, eq_of_same, same_refl, elem, count,
  count-append, count-filter, length-le_of_count, elem-append, elem_lem, length, length-append,
  filter, count_p, sort_strings, count-sort_strings,
}
use gapi.Toposort.Edges.{Edge}
use gapi.Toposort.Kahn.{State, in_degree, dependents, update, unlock, emit, step, run, start}

-- How many dependencies of a node are not among `order`.
unfoldable pub remaining : List Edge → List String → String → ℕ
remaining edges order x = count_p (λ (e : Edge). same e.node x && not (elem e.dep order)) edges

unlock_in_deg :
    (deg : String → ℕ) (ds : List String) (x : String) → (unlock deg ds).0 x ≡ deg x - count x ds
unfolding unlock count
unlock_in_deg deg [] x = omega arith
unlock_in_deg deg (d ∷ ds) x =
    ground (arith, unlock_in_deg (update deg d (deg d - 1)) ds x, eq_of_same d x)

-- A name is unlocked, once, where its last dependencies fall away.
count-unlock :
    (deg : String → ℕ) (ds : List String)
    → ((x : String) → count x ds ≤ deg x)
    → (x : String)
    → count x (unlock deg ds).1 ≡ (if ltb 0 (count x ds) && deg x == count x ds then 1 else 0)
unfolding unlock count
count-unlock deg [] le x = refl
count-unlock deg (d ∷ ds) le x = ground (
  arith,
  count-unlock (update deg d (deg d - 1)) ds le' x,
  eq_of_same d x,
  le x,
  le d,
  same_refl d,
)
  where
    le' : (y : String) → count y ds ≤ update deg d (deg d - 1) y
    le' y = ground (arith, le y, le d, same_refl d, eq_of_same d y)

count-dependents :
    (edges : List Edge) (id x : String)
    → count x (dependents edges id) ≡ count_p (λ (e : Edge). same e.node x && same id e.dep) edges
unfolding dependents count count_p filter
count-dependents [] id x = refl
count-dependents (e ∷ es) id x = ground (arith, count-dependents es id x)

remaining-snoc :
    (edges : List Edge) (order : List String) (id x : String)
    → elem id order ≡ false
    → remaining edges (order ++ id ∷ []) x + count x (dependents edges id) ≡ remaining edges order x
unfolding remaining dependents count_p filter count elem
remaining-snoc [] order id x fresh = refl
remaining-snoc (e ∷ es) order id x fresh = ground (
  arith,
  remaining-snoc es order id x fresh,
  elem-append e.dep order (id ∷ []),
  eq_of_same id e.dep,
)

in_degree-eq-remaining : (edges : List Edge) (x : String) → in_degree edges x ≡ remaining edges [] x
unfolding in_degree remaining count_p elem
in_degree-eq-remaining [] x = refl
in_degree-eq-remaining (e ∷ es) x = ground (arith, in_degree-eq-remaining es x)

remaining-le-in_degree :
    (edges : List Edge) (order : List String) (x : String)
    → remaining edges order x ≤ in_degree edges x
unfolding in_degree remaining count_p
remaining-le-in_degree [] order x = omega arith
remaining-le-in_degree (e ∷ es) order x = ground (arith, remaining-le-in_degree es order x)

module _ (known : List String) (edges : List Edge) where
  -- What holds between two rounds.
  pub record Inv (s : State) : Type 0 where
    pub degrees : (x : String) → s.in_deg x ≡ remaining edges s.order x
    pub placed :
        (x : String)
        → count x s.order + count x s.ready ≡ (if elem x known && s.in_deg x == 0 then 1 else 0)

  -- What `Sort` sees to: the names of `known` are distinct, and edges are between known nodes.
  pub record IsInput : Type 0 where
    pub distinct : (x : String) → count x known ≤ 1
    pub nodes : (x : String) → elem x known ≡ false → in_degree edges x ≡ 0

  module _ (input : IsInput) where
    pub start-Inv : Inv (start known edges)
    unfolding start count
    start-Inv = record {
      degrees = λ x. in_degree-eq-remaining edges x;
      placed = λ x. ground (
        arith,
        count-sort_strings x (filter (λ id. in_degree edges id == 0) known),
        count-filter (λ id. in_degree edges id == 0) x known,
        elem_lem x known,
        input.distinct x,
      );
    }

    module _ (s : State) (id : String) (rest : List String) (e : s.ready ≡ id ∷ rest)
        (inv : Inv s) where
      -- The node taken from `ready` was not emitted before.
      front_fresh : elem id s.order ≡ false
      unfolding count
      front_fresh =
          ground (arith, elem_lem id s.order, inv.placed id, same_refl id, ap (count id) e)

      count_le : (x : String) → count x (dependents edges id) ≤ s.in_deg x
      count_le x = omega (arith, remaining-snoc edges s.order id x front_fresh, inv.degrees x)

      pub emit-Inv : Inv (emit edges s id rest)
      unfolding emit count
      emit-Inv = record {
        degrees = λ x. omega (
          arith,
          remaining-snoc edges s.order id x front_fresh,
          inv.degrees x,
          unlock_in_deg s.in_deg (dependents edges id) x,
        );
        placed = λ x. ground (
          arith,
          count-append x s.order (id ∷ []),
          count-append x rest (sort_strings (unlock s.in_deg (dependents edges id)).1),
          count-sort_strings x (unlock s.in_deg (dependents edges id)).1,
          count-unlock s.in_deg (dependents edges id) count_le x,
          unlock_in_deg s.in_deg (dependents edges id) x,
          count_le x,
          inv.placed x,
          ap (count x) e,
          input.nodes x,
          inv.degrees x,
          remaining-le-in_degree edges s.order x,
        );
      }

      pub front_done : remaining edges s.order id ≡ 0
      unfolding count
      front_done = ground (arith, inv.degrees id, inv.placed id, same_refl id, ap (count id) e)

    -- A property that every round keeps holds when the loop ends.
    module _ (P : State → Type 0)
        (keep : (s : State) (id : String) (rest : List String)
          → s.ready ≡ id ∷ rest
          → P s
          → P (emit edges s id rest)) where
      step_ind : (s : State) (ready : List String) → s.ready ≡ ready → P s → P (step edges s ready)
      step_ind s [] e p = p
      step_ind s (id ∷ rest) e p = keep s id rest e p

      pub run_ind : (fuel : ℕ) (s : State) → P s → P (run fuel edges s)
      unfolding run
      run_ind zero s p = p
      run_ind (suc fuel) s p = run_ind fuel (step edges s s.ready) (step_ind s s.ready refl p)

    fits : (s : State) → Inv s → length s.order + length s.ready ≤ length known
    fits s inv = omega (
      arith,
      length-append s.order s.ready,
      length-le_of_count (s.order ++ s.ready) known
          λ x. ground (arith, count-append x s.order s.ready, inv.placed x, elem_lem x known),
    )

    step_idle :
        (s : State) (ready : List String)
        → s.ready ≡ ready
        → s.ready ≡ []
        → (step edges s ready).ready ≡ []
    step_idle s [] e idle = e
    step_idle s (id ∷ rest) e idle = cc

    run_idle : (fuel : ℕ) (s : State) → s.ready ≡ [] → (run fuel edges s).ready ≡ []
    unfolding run
    run_idle zero s idle = idle
    run_idle (suc fuel) s idle =
        run_idle fuel (step edges s s.ready) (step_idle s s.ready refl idle)

    step_progress :
        (s : State) (ready : List String)
        → s.ready ≡ ready
        → ((step edges s ready).ready ≡ [])
          ⊎ (length (step edges s ready).order ≡ suc (length s.order))
    unfolding emit
    step_progress s [] e = inl e
    step_progress s (id ∷ rest) e = inr (omega (arith, length-append s.order (id ∷ [])))

    -- With a round left for each node that is not emitted, the loop ends with nothing ready.
    pub run-ready :
        (fuel : ℕ) (s : State)
        → Inv s
        → length known ≤ fuel + length s.order
        → (run fuel edges s).ready ≡ []
    unfolding run
    run-ready zero s inv enough = ground (arith, fits s inv)
    run-ready (suc fuel) s inv enough = elim (step_progress s s.ready refl) [
      | inl idle ↦ run_idle fuel _ idle
      | inr more ↦
          run-ready fuel (step edges s s.ready) (step_ind Inv emit-Inv s s.ready refl inv)
            (omega arith)
    ]
