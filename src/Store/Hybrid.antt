-- ===== src/Store/Hybrid.antt =====
-- internal/db/hybriddb/hybriddb.go: the two databases side by side, which is what the program opens
-- for the registry.
use gapi.Prelude.{
  ℕ, ◌⊎◌, inl, inr, List, ◌≡◌, refl, sym, ap, ◌∙◌, String, false, ◌&&◌, Option, is_some, none, some,
  same, arith, if◌then◌else◌,
}
use gapi.Prelude.Int.{ℤ, ltb_int, sub_int}
use mathlib.Core.Path.{subst}
use gapi.Store.Bbolt.{Bbolt, IsBbolt}
use gapi.Store.Graph
use gapi.Store.Graph.{Node, Edge, Value}
use gapi.Store.Graph.Neighbors.{
  IsGraph, is_linked, neighbors_lem, is_linked-add_edge, add_edge-IsGraph, add_node-IsGraph,
  is_linked-add_node,
}
use gapi.Store.Graph.Path
use gapi.Store.Graph.Path.{Pop, IsPop, Search, found, stored, expired, path_key}
use gapi.Store.Graph.Path.Found.{shortest_path-Walk}
use gapi.Store.Graph.Path.Kept.{find_path-or_same, find_path-shortest_path, kept, find_path-Answers}
use gapi.Store.Interface.{HybridStore, IsHybridStore}
use gapi.Store.Keys.{edge_key}
use gapi.Store.Kv

module _ {A : Type 0} (kv : Bbolt A) (graph : Bbolt Value) where
  pub record Db : Type 0 where
    pub kv_db : kv.State
    pub graph_db : graph.State

  abbrev pub on_kv : Db → Option kv.State → Option Db
  on_kv h none = none
  on_kv h (some s) = some (record h { kv_db = s })

  abbrev pub on_graph : Db → Option graph.State → Option Db
  on_graph h none = none
  on_graph h (some s) = some (record h { graph_db = s })

  -- The methods, with the queue of the search and a bound on its rounds; there is no `ClearGraph`.
  abbrev pub hybrid : Pop → ℕ → HybridStore A
  hybrid pop fuel = record {
    State = Db;
    set = λ b k v h. on_kv h (Kv.set kv b k v h.kv_db);
    get = λ b k h. Kv.get kv b k h.kv_db;
    delete = λ b k h. on_kv h (Kv.delete kv b k h.kv_db);
    keys = λ b h. some (Kv.keys kv b h.kv_db);
    add_node = λ n h. on_graph h (Graph.add_node graph n h.graph_db);
    add_edge = λ e h. on_graph h (Graph.add_edge graph e h.graph_db);
    neighbors = λ id kind h. Graph.neighbors graph id kind h.graph_db;
    shortest_path = λ start end kind ttl now h.
        let (g, answer) = Path.find_path graph pop fuel start end kind ttl now h.graph_db in
        (record h { graph_db = g }, answer);
    get_stored_path =
        λ start end kind now h. Path.get_stored_path graph start end kind now h.graph_db;
    clear_graph = none;
  }

  on_kv-eq :
      (h t : Db) (o : Option kv.State)
      → on_kv h o ≡ some t
      → (s : kv.State) × (o ≡ some s) × (t ≡ record h { kv_db = s })
  on_kv-eq h t none e = absurd cc
  on_kv-eq h t (some s) e = (s, refl, ground arith)

  on_graph-eq :
      (h t : Db) (o : Option graph.State)
      → on_graph h o ≡ some t
      → (s : graph.State) × (o ≡ some s) × (t ≡ record h { graph_db = s })
  on_graph-eq h t none e = absurd cc
  on_graph-eq h t (some s) e = (s, refl, ground arith)

module _ {A : Type 0} (kv : Bbolt A) (graph : Bbolt Value) (kv_laws : IsBbolt kv)
    (graph_laws : IsBbolt graph) (pop : Pop) (pops : IsPop pop) (fuel : ℕ) where
  get-set :
      (b k : String) (v : A) (s t : Db kv graph)
      → (hybrid kv graph pop fuel).set b k v s ≡ some t
      → (c j : String)
      → (hybrid kv graph pop fuel).get c j t
        ≡ (if same b c && same k j then some v else (hybrid kv graph pop fuel).get c j s)
  get-set b k v s t h c j =
      let (u, done, e) = on_kv-eq kv graph s t _ h in
      ap (λ (x : Db kv graph). Kv.get kv c j x.kv_db) e
      ∙ Kv.get-set kv kv_laws b k v s.kv_db u done c j

  get-delete :
      (b k : String) (s t : Db kv graph)
      → (hybrid kv graph pop fuel).delete b k s ≡ some t
      → (c j : String)
      → (hybrid kv graph pop fuel).get c j t
        ≡ (if same b c && same k j then none else (hybrid kv graph pop fuel).get c j s)
  get-delete b k s t h c j =
      let (u, done, e) = on_kv-eq kv graph s t _ h in
      ap (λ (x : Db kv graph). Kv.get kv c j x.kv_db) e
      ∙ Kv.get-delete kv kv_laws b k s.kv_db u done c j

  kv-untouched :
      (s t : Db kv graph) (o : Option graph.State)
      → on_graph kv graph s o ≡ some t
      → t.kv_db ≡ s.kv_db
  kv-untouched s t o h =
      let (u, done, e) = on_graph-eq kv graph s t o h in ap (λ (x : Db kv graph). x.kv_db) e

  graph-untouched :
      (s t : Db kv graph) (o : Option kv.State)
      → on_kv kv graph s o ≡ some t
      → t.graph_db ≡ s.graph_db
  graph-untouched s t o h =
      let (u, done, e) = on_kv-eq kv graph s t o h in ap (λ (x : Db kv graph). x.graph_db) e

  -- The state of the graph after a step on it.
  graph-step :
      (s t : Db kv graph) (o : Option graph.State)
      → on_graph kv graph s o ≡ some t
      → o ≡ some t.graph_db
  graph-step s t o h =
      let (u, done, e) = on_graph-eq kv graph s t o h in
      done ∙ sym (ap (λ (x : Db kv graph). some x.graph_db) e)

  abbrev pub IsValid : Db kv graph → Type 0
  IsValid h = IsGraph graph graph_laws h.graph_db

  -- A search writes nothing among the edges.
  edges-shortest_path :
      (start end kind : String) (ttl now : ℤ) (s : Db kv graph) (k : String)
      → graph.get "edges" k
          ((hybrid kv graph pop fuel).shortest_path start end kind ttl now s).0.graph_db
        ≡ graph.get "edges" k s.graph_db
  unfolding same
  edges-shortest_path start end kind ttl now s k =
      elim (find_path-or_same graph pop fuel start end kind ttl now s.graph_db) [
        | inl none_written ↦ ap (λ g. graph.get "edges" k g) none_written
        | inr (v, put) ↦
            graph_laws.get-put "paths" (path_key start kind end) v s.graph_db _ put "edges" k
      ]

  is_linked-search :
      (start end kind : String) (ttl now : ℤ) (s : Db kv graph) (id knd d : String)
      → is_linked graph graph_laws id knd d
          ((hybrid kv graph pop fuel).shortest_path start end kind ttl now s).0.graph_db
        ≡ is_linked graph graph_laws id knd d s.graph_db
  unfolding is_linked
  is_linked-search start end kind ttl now s id knd d =
      ap is_some (edges-shortest_path start end kind ttl now s (edge_key id knd d))

  shortest_path-IsValid :
      (start end kind : String) (ttl now : ℤ) (s : Db kv graph)
      → IsValid s
      → IsValid ((hybrid kv graph pop fuel).shortest_path start end kind ttl now s).0
  shortest_path-IsValid start end kind ttl now s valid k v h =
      valid k v (sym (edges-shortest_path start end kind ttl now s k) ∙ h)

  shortest_path-Answers :
      (start end kind : String) (ttl now : ℤ) (s t : Db kv graph) (nodes : List String) (cost : ℤ)
      → (hybrid kv graph pop fuel).shortest_path start end kind ttl now s ≡ (t, found nodes cost)
      → (t ≡ s)
        ⊎ ((later : ℤ)
            → (hybrid kv graph pop fuel).get_stored_path start end kind later t ≡ (
                if ltb_int ttl (sub_int later now)
                then expired
                else stored (kept start end kind ttl now nodes cost)))
  shortest_path-Answers start end kind ttl now s t nodes cost h =
      let r = Path.find_path graph pop fuel start end kind ttl now s.graph_db in
      let is_t : record s { graph_db = r.0 } ≡ t = ap (λ p. p.0) h in
      let is_r : r ≡ (t.graph_db, found nodes cost) =
        ap (λ (p : Db kv graph × Search). (p.0.graph_db, p.1)) h in
      elim (find_path-Answers graph graph_laws start end kind ttl now pop fuel s.graph_db t.graph_db
        nodes cost is_r) [
          | inl e ↦ inl (sym is_t ∙ ap (λ g. record s { graph_db = g }) (ap (λ p. p.0) is_r ∙ e))
          | inr answers ↦ inr answers
        ]

  -- The laws of the interface, with the edges that are kept as its links.
  abbrev hybrid_laws : IsHybridStore (hybrid kv graph pop fuel)
  hybrid_laws = record {
    IsValid = IsValid;
    is_linked = λ id kind d h. is_linked graph graph_laws id kind d h.graph_db;
    get-set = get-set;
    get-delete = get-delete;
    get-shortest_path = λ start end kind ttl now s c j. refl;
    delete-IsValid = λ b k s t h valid.
        subst (λ x. IsGraph graph graph_laws x) (sym (graph-untouched s t _ h)) valid;
    shortest_path-IsValid = shortest_path-IsValid;
    is_linked-delete = λ b k s t h id kind d.
        ap (λ x. is_linked graph graph_laws id kind d x) (graph-untouched s t _ h);
    is_linked-shortest_path =
        λ start end kind ttl now s id knd d. is_linked-search start end kind ttl now s id knd d;
    shortest_path-Walk = λ start end kind ttl now s t nodes cost h.
        shortest_path-Walk pop pops (λ id. Graph.neighbors graph id kind s.graph_db) end start fuel
          nodes cost
          (sym (find_path-shortest_path graph pop fuel start end kind ttl now s.graph_db)
            ∙ ap (λ p. p.1) h);
    get_stored_path-shortest_path = shortest_path-Answers;
    elem-keys = λ b k s. (Kv.keys kv b s.kv_db, refl, Kv.elem-keys kv kv_laws b k s.kv_db);
    get-add_node = λ n s t h c j. ap (λ x. Kv.get kv c j x) (kv-untouched s t _ h);
    get-add_edge = λ e s t h c j. ap (λ x. Kv.get kv c j x) (kv-untouched s t _ h);
    set-IsValid = λ b k v s t h valid.
        subst (λ x. IsGraph graph graph_laws x) (sym (graph-untouched s t _ h)) valid;
    add_node-IsValid = λ n s t h valid.
        add_node-IsGraph graph graph_laws n s.graph_db t.graph_db valid (graph-step s t _ h);
    add_edge-IsValid = λ e s t pf pk h valid.
        add_edge-IsGraph graph graph_laws e s.graph_db t.graph_db pf pk valid (graph-step s t _ h);
    is_linked-set = λ b k v s t h id kind d.
        ap (λ x. is_linked graph graph_laws id kind d x) (graph-untouched s t _ h);
    is_linked-add_node = λ n s t h id kind d.
        is_linked-add_node graph graph_laws n s.graph_db t.graph_db id kind d (graph-step s t _ h);
    is_linked-add_edge = λ e s t pf pk h id kind d pi pk'.
        is_linked-add_edge graph graph_laws e s.graph_db t.graph_db id kind d pf pk pi pk'
          (graph-step s t _ h);
    neighbors_lem = λ id kind s pi pk valid.
        let (es, listed, leads, _) =
          neighbors_lem graph graph_laws id kind s.graph_db pi pk valid in
        (es, listed, leads);
  }

  pub hybrid-IsHybridStore :
      (laws : IsHybridStore (hybrid kv graph pop fuel)) × ((h : Db kv graph)
        → ((k : String) → graph.get "edges" k h.graph_db ≡ none)
        → laws.IsValid h × ((id kind d : String) → laws.is_linked id kind d h ≡ false))
  unfolding is_linked
  hybrid-IsHybridStore = (
    hybrid_laws,
    λ h empty. (
      λ k v there. absurd (ground (arith, there, empty k)),
      λ id kind d. ap is_some (empty (edge_key id kind d)),
    ),
  )
