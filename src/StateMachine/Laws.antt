-- ===== src/StateMachine/Laws.antt =====
-- What the machine promises over any series of requests.
use gapi.Prelude.{
  ◌≡◌, refl, Bool, true, List, [], ◌∷◌, ◌++◌, map, Option, none, some, arith, Bool-cases, inl, inr,
  ◌⊎◌,
}
use mathlib.Core.Path.{subst}
use gapi.StateMachine.{
  BaseStateMachine, Call, TransitionError, invalid_transition, is_allowed, transition_to,
  run_requests,
}

module _ {S O : Type 0} (eq : S → S → Bool) where
  transition_to-keeps :
      (s : S) (sm : BaseStateMachine S O)
      → ((transition_to eq s sm).0.transitions ≡ sm.transitions)
        × ((transition_to eq s sm).0.observers ≡ sm.observers)
  unfolding transition_to
  transition_to-keeps s sm = ground arith

  pub run_requests-keeps :
      (requests : List S) (sm : BaseStateMachine S O)
      → ((run_requests eq requests sm).0.transitions ≡ sm.transitions)
        × ((run_requests eq requests sm).0.observers ≡ sm.observers)
  unfolding run_requests
  run_requests-keeps [] sm = (refl, refl)
  run_requests-keeps (s ∷ requests) sm =
      ground
        (arith, transition_to-keeps s sm, run_requests-keeps requests (transition_to eq s sm).0)

  -- A property of states that every listed transition keeps, holds of every state reached.
  pub run_requests_ind :
      (P : S → Type 0) (table : S → List S)
      → ((from to : S) → P from → is_allowed eq to (table from) ≡ true → P to)
      → (requests : List S) (sm : BaseStateMachine S O) → sm.transitions ≡ table
      → P sm.current
      → P (run_requests eq requests sm).0.current
  unfolding run_requests transition_to
  run_requests_ind P table keep [] sm e p = p
  run_requests_ind P table keep (s ∷ requests) sm e p =
      run_requests_ind P table keep requests (transition_to eq s sm).0
        (ground (arith, transition_to-keeps s sm))
        (elim (Bool-cases (is_allowed eq s (sm.transitions sm.current))) [
          | inl listed ↦ subst P (ground arith) (keep sm.current s p (ground arith))
          | inr refused ↦ subst P (ground arith) p
        ])

-- The calls of one observer follow one another: each starts in the state where the last ended, by
-- a listed transition.
module _ {S : Type 0} (eq : S → S → Bool) (table : S → List S) where
  abbrev pub IsChain : {O : Type 0} → S → List (Call S O) → S → Type 0
  IsChain start [] end = start ≡ end
  IsChain start (c ∷ calls) end =
      (c.from ≡ start) × (is_allowed eq c.to (table c.from) ≡ true) × IsChain c.to calls end

IsChain-one :
    {S O : Type 0} (eq : S → S → Bool) (table : S → List S) (o : O) (from to : S)
    (calls : List (Call S O)) (end : S) (observers : List O)
    → observers ≡ o ∷ []
    → is_allowed eq to (table from) ≡ true
    → IsChain eq table to calls end
    → IsChain eq table from
        (map (λ f. record { observer = f; from = from; to = to }) observers ++ calls)
        end
IsChain-one eq table o from to calls end [] e h c = cc
IsChain-one eq table o from to calls end (x ∷ []) e h c = (refl, h, c)
IsChain-one eq table o from to calls end (x ∷ y ∷ r) e h c = cc

module _ {S O : Type 0} (eq : S → S → Bool) where
  abbrev request :
      S → BaseStateMachine S O → BaseStateMachine S O × Option (TransitionError S) × List (Call S O)
  request = transition_to eq

  -- The two branches of a request.
  transition_to_cases :
      (s : S) (sm : BaseStateMachine S O)
      → (is_allowed eq s (sm.transitions sm.current) ≡ true)
          × (request s sm ≡ (
            record sm { current = s },
            none,
            map (λ f. record { observer = f; from = sm.current; to = s }) sm.observers,
          ))
        ⊎ (request s sm ≡ (sm, some (invalid_transition sm.current s), []))
  unfolding transition_to
  transition_to_cases s sm = elim (Bool-cases (is_allowed eq s (sm.transitions sm.current))) [
    | inl listed ↦ inl (listed, rw listed)
    | inr refused ↦ inr (rw refused)
  ]

  -- With one observer, its calls lead from the first state to the last, each by a listed
  -- transition: no change is missed and none is announced that did not happen.
  pub run_requests-IsChain :
      (o : O) (requests : List S) (sm : BaseStateMachine S O)
      → sm.observers ≡ o ∷ []
      → IsChain eq sm.transitions sm.current
          (run_requests eq requests sm).1
          (run_requests eq requests sm).0.current
  unfolding run_requests
  run_requests-IsChain o [] sm e = refl
  run_requests-IsChain o (s ∷ requests) sm e = elim (transition_to_cases s sm) [
    | inl (listed, done) ↦ rw done (
        IsChain-one eq sm.transitions o sm.current s _ _ sm.observers e listed
          (run_requests-IsChain o requests (record sm { current = s }) e))
    | inr refused ↦ rw refused (run_requests-IsChain o requests sm e)
  ]
