-- ===== src/Toposort/Samples.antt =====
-- Small inputs, and what `Sort` does on them.
use gapi.Prelude.{
  ℕ, ◌<◌, ◌≡◌, ◌≢◌, ◌↔◌, refl, String, true, List, [], ◌∷◌, arith, same, eq_of_same, elem, count,
  filter, count_p, sort_strings, if◌then◌else◌,
}
use gapi.Toposort.Edges.{Deps, add_edge, has_edge, same_edge, known_of, edge_set, merge}
use gapi.Toposort.Kahn.{ok, cycle, no_progress, sort, kahn}
use gapi.Toposort.Order.{IsRanking, sort_nodes, sort_respects_hard, sort-ok_iff}
use gapi.Toposort.Cycles.{sort-ne-no_progress, sort_respects_soft}

program : Unit {0}
unfolding sort kahn same elem count filter count_p sort_strings known_of edge_set merge add_edge
    has_edge same_edge
program = tt

abbrev services : Deps
services = ("web", "db" ∷ "log" ∷ []) ∷ ("db", "log" ∷ "ext" ∷ []) ∷ ("log", []) ∷ []

abbrev wishes : Deps
wishes = ("log", "web" ∷ []) ∷ []

sort-services : sort services wishes ≡ ok ("log" ∷ "db" ∷ "web" ∷ [])
unfolding program
sort-services = refl

abbrev looped : Deps
looped = ("b", "a" ∷ []) ∷ ("a", "b" ∷ []) ∷ ("c", []) ∷ []

sort-looped : sort looped [] ≡ cycle ("a" ∷ "b" ∷ [])
unfolding program
sort-looped = refl

sort_nodes_example : count "db" ("log" ∷ "db" ∷ "web" ∷ []) ≡ 1
unfolding same
sort_nodes_example = sort_nodes services wishes ("log" ∷ "db" ∷ "web" ∷ []) sort-services "db"

sort_respects_hard_example : elem "log" ("log" ∷ []) ≡ true
unfolding same elem
sort_respects_hard_example =
    sort_respects_hard services wishes ("log" ∷ []) ("web" ∷ []) "db" "log" sort-services refl

sort-ok_iff_example :
    ((rank : String → ℕ) × IsRanking services services rank)
    ↔ ((order : List String) × (sort services wishes ≡ ok order))
sort-ok_iff_example = sort-ok_iff services wishes

sort-ne-no_progress_example : sort services wishes ≢ no_progress
sort-ne-no_progress_example = sort-ne-no_progress services wishes

abbrev tools : Deps
tools = ("a", []) ∷ ("b", []) ∷ []

abbrev tool_wishes : Deps
tool_wishes = ("a", "b" ∷ []) ∷ []

abbrev place : String → ℕ
place x = if same x "a" then 1 else 0

sort-tools : sort tools tool_wishes ≡ ok ("b" ∷ "a" ∷ [])
unfolding program
sort-tools = refl

hard_ranked : IsRanking tools tools place
unfolding elem
hard_ranked n d h = ground arith

b_first : place "b" < place "a"
unfolding same
b_first = omega arith

soft_ranked : IsRanking tools tool_wishes place
unfolding elem
soft_ranked n d h =
    let (this, that) = ends in rw (← eq_of_same "a" n this, ← eq_of_same "b" d that) b_first
  where
    ends : (same "a" n ≡ true) × (same "b" d ≡ true)
    ends = ground arith

sort_respects_soft_example : elem "b" ("b" ∷ []) ≡ true
unfolding same elem
sort_respects_soft_example =
    sort_respects_soft tools tool_wishes place ("b" ∷ []) [] "a" "b" hard_ranked soft_ranked
      sort-tools refl
