-- ===== src/Registry/Samples.antt =====
-- A registry on an empty database, with two agents, one of them required by the other.
use gapi.Prelude.{
  ℕ, ◌≡◌, refl, String, true, ◌||◌, List, [], ◌∷◌, ◌⊎◌, none, some, same, elem, count, filter,
  count_p, sort_strings, if◌then◌else◌,
}
use gapi.Prelude.Text.{is_blank, contains}
use gapi.Store.Bbolt.{take_prefix}
use gapi.Prelude.Int.{pos}
use gapi.Store.Interface.{HybridStore, IsHybridStore}
use gapi.Store.Graph.{Value, node, edge, add_node, add_edge, neighbors, read_edges}
use gapi.Store.Graph.Path.Pick.{pop_min, pop_min-IsPop}
use gapi.Store.Hybrid.{Db, hybrid, hybrid-IsHybridStore}
use gapi.Store.Keys.{edge_key, prefix_key}
use gapi.Store.Kv
use gapi.Store.Memory.{memory, memory-IsBbolt, find, keys_of, scan}
use gapi.Toposort.Edges.{add_edge as add, has_edge, same_edge, known_of, edge_set, merge}
use gapi.Toposort.Kahn.{ok, sort, kahn}
use gapi.AgentGraph
use gapi.AgentGraph.{
  is_agent, copied, append_dep, append_targets, append_reverse, hard_deps, soft_deps,
}
use gapi.Registry.Register.{
  AgentDescription, Failure, Files, check_integrity, write_edges, write_all_edges, write_agent,
  register,
}
use gapi.Registry.Queries.{
  lookup, lookup_all, list, collect, get_dependencies, declared, sync_graph, topological_sort,
}
use gapi.Registry.Writes.{write_agent_lem, register-write_agent}
use gapi.Registry.Dependencies.{
  IsVerified, depends_on, get_dependencies-register, lookup-register, register-IsVerified,
}
use gapi.Registry.Start.{topological_sort_respects_records}

abbrev store : HybridStore AgentDescription
store = hybrid memory memory pop_min 8

abbrev files : Files ℕ
files = record {
  read_file = λ path. if same path "/agents/db.sig" then some "07" else none;
  decode_hex = λ hex. some (7 ∷ []);
  hash_file = λ path. some "h";
  verify = λ key hash sig. true;
}

abbrev agent : String → List String → List String → AgentDescription
agent id requires required_by = record {
  id = id;
  path = "/agents/db";
  type = "service";
  language = "go";
  version = "1.0.0";
  hash = "";
  capabilities = [];
  requires = requires;
  wants = [];
  required_by = required_by;
  wanted_by = [];
  tags = [];
}

abbrev web : AgentDescription
web = agent "web" ("dns" ∷ []) []

abbrev db : AgentDescription
db = agent "zdb" [] ("web" ∷ [])

abbrev State : Type 0
State = Db {A = AgentDescription} memory memory

abbrev requires_edge : String → String → Value
requires_edge from to = edge (record { from = from; to = to; kind = "requires"; weight = pos 0 })

abbrev service : String → Value
service id = node (record { id = id; type = "service"; labels = [] })

abbrev empty : State
empty = record { kv_db = []; graph_db = [] }

abbrev with_web : State
with_web = record {
  kv_db = ("agents", "web", web) ∷ [];
  graph_db =
      ("edges", "web|requires|dns", requires_edge "web" "dns")
      ∷ ("nodes", "web", service "web")
      ∷ [];
}

abbrev with_both : State
with_both = record {
  kv_db = ("agents", "zdb", db) ∷ ("agents", "web", web) ∷ [];
  graph_db =
      ("edges", "web|requires|zdb", requires_edge "web" "zdb")
      ∷ ("nodes", "zdb", service "zdb")
      ∷ with_web.graph_db;
}

program : Unit {0}
unfolding register check_integrity write_agent write_all_edges write_edges is_blank Kv.set Kv.get
    Kv.keys add_node add_edge neighbors read_edges edge_key prefix_key take_prefix find keys_of scan
    lookup lookup_all list collect get_dependencies declared sync_graph topological_sort
    AgentGraph.topological_sort hard_deps soft_deps copied append_reverse append_targets append_dep
    is_agent sort kahn same elem count filter count_p sort_strings known_of edge_set merge add
    has_edge same_edge depends_on contains
program = tt

register-web : register store files none (some web) empty ≡ (with_web, none)
unfolding program
register-web = refl

-- With a key, the signature is read.
register-db : register store files (some 1) (some db) with_web ≡ (with_both, none)
unfolding program
register-db = refl

order_of_both : topological_sort store with_both ≡ (with_both, some (ok ("zdb" ∷ "web" ∷ [])))
unfolding program
order_of_both = refl

abbrev laws : IsHybridStore store
laws = (hybrid-IsHybridStore memory memory memory-IsBbolt memory-IsBbolt pop_min pop_min-IsPop 8).0

empty-IsValid : laws.IsValid empty
unfolding program
empty-IsValid =
    ((hybrid-IsHybridStore memory memory memory-IsBbolt memory-IsBbolt pop_min pop_min-IsPop 8).1
      empty (λ k. refl)).0

web-IsValid : laws.IsValid with_web
unfolding program
web-IsValid =
    (write_agent_lem store laws web empty with_web refl tt tt empty-IsValid
      (register-write_agent store laws files none web empty with_web register-web)).0

get_dependencies-register_example :
    (before after : List String) × (get_dependencies store "web" with_web ≡ some before)
    × (get_dependencies store "web" with_both ≡ some after)
    × ((d : String) → count d after ≡ (if depends_on db "web" d || elem d before then 1 else 0))
unfolding program
get_dependencies-register_example =
    get_dependencies-register store laws files (some 1) db with_web with_both "web" refl tt
      (refl, tt) refl web-IsValid register-db

lookup-register_example :
    lookup store "web" with_both
    ≡ (if same db.id "web" then some db else lookup store "web" with_web)
unfolding program
lookup-register_example =
    lookup-register store laws files (some 1) db with_web with_both "web" refl tt (refl, tt)
      web-IsValid register-db

register-IsVerified_example :
    ((f : Failure) × (register store files (some 1) (some db) with_web ≡ (with_web, some f)))
    ⊎ IsVerified files 1 db
register-IsVerified_example = register-IsVerified store laws files 1 db with_web

topological_sort_respects_records_example : elem "zdb" ("zdb" ∷ []) ≡ true
unfolding program
topological_sort_respects_records_example =
    topological_sort_respects_records store laws with_both with_both ("zdb" ∷ []) [] web db
      order_of_both refl refl refl refl
