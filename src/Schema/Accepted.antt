-- ===== src/Schema/Accepted.antt =====
-- What an accepted declaration promises to the parts of the program that use it.
use gapi.Prelude.{
  ℕ, ◌≤◌, ◌<◌, ◌≡◌, inl, inr, refl, String, Bool, true, false, List, [], ◌∷◌, ◌++◌, Option, none,
  some, same, elem, elem-append, eq_of_same, arith, if◌then◌else◌, Bool-cases,
}
use mathlib.Core.Path.{subst}
use gapi.Prelude.Int.{ℤ}
use gapi.Limits.{Floats, Limit, limit, bad, max_int64, parse_resource_spec}
use gapi.Limits.Bounds.{parse_resource_spec-memory}
use gapi.Budget.{
  Parsed, parsed, refused, parse_readiness_budget, resolve_parsed, resolve_readiness_budget,
}
use gapi.Schema.{
  AgentDescribe, SchemaError, bad_dependency, ◌and_then◌, require, is_id, validate_id,
  validate_dependencies, optional, budget_error, memory_positive, validate_memory_limit,
  validate_agent_describe,
}

and_then-none : (a b : Option SchemaError) → a and_then b ≡ none → (a ≡ none) × (b ≡ none)
unfolding ◌and_then◌
and_then-none none b h = (refl, h)
and_then-none (some err) b h = absurd cc

require-none : (err : SchemaError) (b : Bool) → require err b ≡ none → b ≡ true
unfolding require
require-none err true h = refl
require-none err false h = absurd cc

optional-none :
    (s : String) (check : Option SchemaError)
    → optional s check ≡ none
    → same s "" ≡ false
    → check ≡ none
unfolding optional
optional-none s check h asked = subst (λ b. (if b then none else check) ≡ none) asked h

-- Every name of the list is well formed.
dependencies-AllIds :
    (deps : List String)
    → validate_dependencies deps ≡ none
    → (dep : String) → elem dep deps ≡ true
    → is_id dep ≡ true
unfolding validate_dependencies elem
dependencies-AllIds [] h dep m = cc
dependencies-AllIds (d ∷ deps) h dep m =
    let (here, rest) =
      and_then-none (require bad_dependency (is_id d)) (validate_dependencies deps) h in
    elim (Bool-cases (same d dep)) [
      | inl found ↦
          subst (λ n. is_id n ≡ true) (eq_of_same d dep found)
            (require-none bad_dependency (is_id d) here)
      | inr other ↦ dependencies-AllIds deps rest dep (ground (arith, other))
    ]

abbrev AllIds : List String → Type 0
AllIds deps = (dep : String) → elem dep deps ≡ true → is_id dep ≡ true

AllIds-append : (xs ys : List String) → AllIds xs → AllIds ys → AllIds (xs ++ ys)
AllIds-append xs ys hx hy dep m = elim (Bool-cases (elem dep xs)) [
  | inl found ↦ hx dep found
  | inr other ↦ hy dep (ground (arith, elem-append dep xs ys, other))
]

-- All four kinds of dependencies.
abbrev pub dependencies : AgentDescribe → List String
dependencies desc = ((desc.requires ++ desc.wants) ++ desc.wanted_by) ++ desc.required_by

budget_error-none :
    (lang : String) (p : Parsed) → budget_error p ≡ none → (resolve_parsed lang p).1 ≡ none
unfolding budget_error resolve_parsed
budget_error-none lang (parsed d) h = refl
budget_error-none lang (refused err) h = absurd cc

module _ (fl : Floats) where
  memory_limit-applied :
      (text : String) (r : Limit (fl.float × ℕ))
      → parse_resource_spec fl "" text ≡ r
      → memory_positive fl r ≡ true
      → (c : fl.float) × (n : ℕ) × (parse_resource_spec fl "" text ≡ limit (c, n))
        × (0 < n)
        × (n ≤ max_int64)
  unfolding memory_positive
  memory_limit-applied text (bad err) e h = cc
  memory_limit-applied text (limit (c, n)) e h =
      (c, n, e, ground arith, (parse_resource_spec-memory fl "" text c n e).1)

module _ (parse_duration : String → Option ℤ) (fl : Floats) where
  accepted_parts :
      (desc : AgentDescribe)
      → validate_agent_describe parse_duration fl desc ≡ none
      → (is_id desc.id ≡ true)
        × ((dep : String) → elem dep (dependencies desc) ≡ true → is_id dep ≡ true)
        × (same desc.memory_limit "" ≡ false
            → (c : fl.float) × (n : ℕ) × (parse_resource_spec fl "" desc.memory_limit
                ≡ limit (c, n))
              × (0 < n)
              × (n ≤ max_int64))
        × ((lang : String)
            → (resolve_readiness_budget parse_duration desc.readiness_budget lang).1 ≡ none)
  unfolding validate_agent_describe validate_id validate_memory_limit resolve_readiness_budget
  accepted_parts desc h =
      let (ids, h1) = and_then-none _ _ h in
      let (typ, h2) = and_then-none _ _ h1 in
      let (requires, h3) = and_then-none _ _ h2 in
      let (wants, h4) = and_then-none _ _ h3 in
      let (wanted_by, h5) = and_then-none _ _ h4 in
      let (required_by, h6) = and_then-none _ _ h5 in
      let (caps, h7) = and_then-none _ _ h6 in
      let (cpu, h8) = and_then-none _ _ h7 in
      let (memory, h9) = and_then-none _ _ h8 in
      let (schedule, h10) = and_then-none _ _ h9 in
      let (listen, budget) = and_then-none _ _ h10 in
      (
        require-none _ _ ids,
        AllIds-append _ _
            (AllIds-append _ _
              (AllIds-append _ _ (dependencies-AllIds _ requires) (dependencies-AllIds _ wants))
              (dependencies-AllIds _ wanted_by))
            (dependencies-AllIds _ required_by),
        λ asked.
            memory_limit-applied fl desc.memory_limit (parse_resource_spec fl "" desc.memory_limit)
              refl (require-none _ _ (optional-none desc.memory_limit _ memory asked)),
        λ lang.
            budget_error-none lang (parse_readiness_budget parse_duration desc.readiness_budget)
              budget,
      )

  -- The id of an accepted declaration, and every name that it depends on in any of the four ways, is
  -- a well-formed id.
  pub validate_agent_describe-is_id :
      (desc : AgentDescribe) (dep : String)
      → validate_agent_describe parse_duration fl desc ≡ none
      → elem dep (desc.id ∷ dependencies desc) ≡ true
      → is_id dep ≡ true
  unfolding elem
  validate_agent_describe-is_id desc dep h m =
      let (ids, deps, _, _) = accepted_parts desc h in
      elim (Bool-cases (same desc.id dep)) [
        | inl itself ↦ subst (λ n. is_id n ≡ true) (eq_of_same desc.id dep itself) ids
        | inr other ↦ deps dep (ground (arith, other))
      ]

  -- The memory limit of an accepted declaration, if there is one, is turned into a positive number of
  -- bytes that fits an `int64`: the agent will run with it.
  pub validate_agent_describe-memory :
      (desc : AgentDescribe)
      → validate_agent_describe parse_duration fl desc ≡ none
      → same desc.memory_limit "" ≡ false
      → (c : fl.float) × (n : ℕ) × (parse_resource_spec fl "" desc.memory_limit ≡ limit (c, n))
        × (0 < n)
        × (n ≤ max_int64)
  validate_agent_describe-memory desc h asked =
      let (_, _, memory, _) = accepted_parts desc h in memory asked

  -- The readiness budget of an accepted declaration is resolved without an error at discovery, for
  -- every language.
  pub validate_agent_describe-resolve :
      (desc : AgentDescribe) (lang : String)
      → validate_agent_describe parse_duration fl desc ≡ none
      → (resolve_readiness_budget parse_duration desc.readiness_budget lang).1 ≡ none
  validate_agent_describe-resolve desc lang h =
      let (_, _, _, budget) = accepted_parts desc h in budget lang
