-- ===== src/AgentGraph/Order.antt =====
-- Every declared requirement, forward or reverse, is respected by the start order.
use gapi.Prelude.{
  ◌≡◌, refl, ◌∙◌, String, Bool, true, false, ◌&&◌, ◌||◌, List, [], ◌∷◌, ◌++◌, same, same_refl,
  eq_of_same, elem, elem-append, if◌then◌else◌, arith, Bool-cases, inl, inr,
}
use gapi.Toposort.Edges.{Deps}
use gapi.Toposort.Kahn.{ok}
use gapi.Toposort.Within.{declares, has_key}
use gapi.Toposort.Order.{sort_respects_hard}
use gapi.AgentGraph.{
  Agent, Agents, is_agent, copied, append_dep, append_targets, append_reverse, hard_deps, soft_deps,
  topological_sort,
}

-- The agent `n` lists `d` in a field; and the agent `d` lists `n` in one.
unfoldable pub lists : (Agent → List String) → Agents → String → String → Bool
lists field [] n d = false
lists field ((id, a) ∷ agents) n d = same id n && elem d (field a) || lists field agents n d

declares-copied :
    (field : Agent → List String) (agents : Agents) (n d : String)
    → declares (copied field agents) n d ≡ lists field agents n d
unfolding copied lists
declares-copied field [] n d = refl
declares-copied field ((id, a) ∷ agents) n d = ground (arith, declares-copied field agents n d)

has_key-copied :
    (field : Agent → List String) (agents : Agents) (n : String)
    → has_key (copied field agents) n ≡ is_agent agents n
unfolding copied is_agent
has_key-copied field [] n = refl
has_key-copied field ((id, a) ∷ agents) n = ground (arith, has_key-copied field agents n)

has_key-append_dep :
    (t i : String) (deps : Deps) (n : String) → has_key (append_dep t i deps) n ≡ has_key deps n
unfolding append_dep
has_key-append_dep t i [] n = refl
has_key-append_dep t i ((node, list) ∷ deps) n = ground (arith, has_key-append_dep t i deps n)

declares-append_dep :
    (t i : String) (deps : Deps) (n d : String)
    → declares (append_dep t i deps) n d
      ≡ (declares deps n d || (has_key deps n && same t n && same i d))
unfolding append_dep elem
declares-append_dep t i [] n d = refl
declares-append_dep t i ((node, list) ∷ deps) n d = ground (
  arith,
  declares-append_dep t i deps n d,
  elem-append d list (i ∷ []),
  eq_of_same node t,
  eq_of_same node n,
  eq_of_same t n,
  same_refl n,
)

has_key-append_targets :
    (known : Agents) (i : String) (ts : List String) (deps : Deps) (n : String)
    → has_key (append_targets known i ts deps) n ≡ has_key deps n
unfolding append_targets
has_key-append_targets known i [] deps n = refl
has_key-append_targets known i (t ∷ ts) deps n =
    has_key-append_targets known i ts _ n ∙ by (is_agent known t)
  where
    by : (b : Bool) → has_key (if b then append_dep t i deps else deps) n ≡ has_key deps n
    by true = has_key-append_dep t i deps n
    by false = refl

declares-append_targets :
    (known : Agents) (i : String) (ts : List String) (deps : Deps) (n d : String)
    → declares (append_targets known i ts deps) n d
      ≡ (declares deps n d || (has_key deps n && is_agent known n && elem n ts && same i d))
unfolding append_targets elem
declares-append_targets known i [] deps n d = ground arith
declares-append_targets known i (t ∷ ts) deps n d = elim (Bool-cases (is_agent known t)) [
  | inl is_known ↦ ground (
    arith,
    is_known,
    declares-append_targets known i ts (append_dep t i deps) n d,
    declares-append_dep t i deps n d,
    has_key-append_dep t i deps n,
    eq_of_same t n,
  )
  | inr unknown ↦
      ground (arith, unknown, declares-append_targets known i ts deps n d, eq_of_same t n)
]

has_key-append_reverse :
    (known : Agents) (field : Agent → List String) (agents : Agents) (deps : Deps) (n : String)
    → has_key (append_reverse known field agents deps) n ≡ has_key deps n
unfolding append_reverse
has_key-append_reverse known field [] deps n = refl
has_key-append_reverse known field ((id, a) ∷ agents) deps n =
    has_key-append_reverse known field agents (append_targets known id (field a) deps) n
    ∙ has_key-append_targets known id (field a) deps n

declares-append_reverse :
    (known : Agents) (field : Agent → List String) (agents : Agents) (deps : Deps) (n d : String)
    → declares (append_reverse known field agents deps) n d
      ≡ (declares deps n d || (has_key deps n && is_agent known n && lists field agents d n))
unfolding append_reverse lists
declares-append_reverse known field [] deps n d = ground arith
declares-append_reverse known field ((id, a) ∷ agents) deps n d = ground (
  arith,
  declares-append_reverse known field agents (append_targets known id (field a) deps) n d,
  declares-append_targets known id (field a) deps n d,
  has_key-append_targets known id (field a) deps n,
)

-- In an order that `TopologicalSort` returns, an agent stands behind every other agent that it
-- requires, and behind every other agent that declares to be required by it.
pub topological_sort_respects_hard :
    (agents : Agents) (before after : List String) (n d : String)
    → topological_sort agents ≡ ok (before ++ n ∷ after)
    → is_agent agents n ≡ true
    → is_agent agents d ≡ true
    → same d n ≡ false
    → (lists (λ a. a.requires) agents n d || lists (λ a. a.required_by) agents d n) ≡ true
    → elem d before ≡ true
unfolding topological_sort hard_deps
topological_sort_respects_hard agents before after n d e kn kd other h =
    let base : Deps = copied (λ a. a.requires) agents in
    sort_respects_hard (hard_deps agents) (soft_deps agents) before after n d e (
      ground (
        arith,
        kn,
        kd,
        other,
        h,
        has_key-append_reverse agents (λ a. a.required_by) agents base n,
        has_key-append_reverse agents (λ a. a.required_by) agents base d,
        has_key-copied (λ a. a.requires) agents n,
        has_key-copied (λ a. a.requires) agents d,
        declares-append_reverse agents (λ a. a.required_by) agents base n d,
        declares-copied (λ a. a.requires) agents n d,
      ))
