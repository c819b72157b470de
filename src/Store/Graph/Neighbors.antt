-- ===== src/Store/Graph/Neighbors.antt =====
-- What `Neighbors` finds in a graph that only `AddEdge` has written edges to.
use gapi.Prelude.{
  ◌≡◌, sym, ap, ◌∙◌, String, Bool, true, ◌&&◌, ◌||◌, List, [], ◌∷◌, some, same, same_refl,
  eq_of_same, arith, Bool-cases, Bool-eq, Option-cases, is_some, inl, inr, if◌then◌else◌,
}
use gapi.Store.Bbolt.{Bbolt, IsBbolt, AllEntries, take_prefix, has_entry}
use gapi.Store.Keys.{prefix_key, edge_key, IsPlain, starts_with-edge_key}
use gapi.Store.Graph.{Node, Edge, Value, node, edge, add_node, add_edge, neighbors}
use text.Mathlib.Text.{starts_with}
use gapi.Store.Graph.Entries.{
  leads_to, IsStored, OutOf, IsEntry, same-edge_key, read_edges_lem, take_prefix-has_prefix,
  AllEntries-zip, stored-IsEntry,
}

module _ (db : Bbolt Value) (laws : IsBbolt db) where
  -- Every edge is stored under its key, and its names are plain.
  abbrev pub IsGraph : db.State → Type 0
  IsGraph s = (k : String) (v : Value) → db.get "edges" k s ≡ some v → IsStored k v

  -- The edge is there.
  unfoldable pub is_linked : String → String → String → db.State → Bool
  is_linked id kind d s = is_some (db.get "edges" (edge_key id kind d) s)

  has_entry-get :
      (k : String) (s : db.State) (kvs : List (String × Value))
      → AllEntries (λ j v. db.get "edges" j s ≡ some v) kvs
      → has_entry k kvs ≡ true
      → is_some (db.get "edges" k s) ≡ true
  unfolding has_entry
  has_entry-get k s [] all h = cc
  has_entry-get k s ((j, v) ∷ kvs) (found, all) h = elim (Bool-cases (same j k)) [
    | inl hit ↦ ground (arith, ap (λ i. db.get "edges" i s) (eq_of_same j k hit), found)
    | inr miss ↦ has_entry-get k s kvs all (ground (arith, h, miss))
  ]

  -- In such a graph `Neighbors` succeeds, its edges are from the node and of the kind, and they lead
  -- to exactly the nodes that are linked.
  pub neighbors_lem :
      (id kind : String) (s : db.State)
      → IsPlain id
      → IsPlain kind
      → IsGraph s
      → (es : List Edge) × (neighbors db id kind s ≡ some es)
        × ((d : String) → leads_to d es ≡ is_linked id kind d s)
        × OutOf id kind es
  unfolding neighbors is_linked
  neighbors_lem id kind s pi pk graph =
      let p = prefix_key id kind in
      let kvs = take_prefix p (db.seek "edges" p s) in
      let found = laws.seek_sound "edges" p s in
      let entries =
        AllEntries-zip (λ k v. db.get "edges" k s ≡ some v) (λ k v. starts_with k p ≡ true)
          (IsEntry id kind) kvs (λ k v g h. stored-IsEntry id kind k v pi pk (graph k v g) h) found
          (take_prefix-has_prefix p (db.seek "edges" p s)) in
      let (es, read, leads, out) = read_edges_lem id kind kvs pi pk entries in
      (es, read, λ d. leads d ∙ Bool-eq _ _ (has_entry-get _ s kvs found) (listed d), out)
    where
      listed :
          (d : String)
          → is_some (db.get "edges" (edge_key id kind d) s) ≡ true
          → has_entry
              (edge_key id kind d)
              (take_prefix (prefix_key id kind) (db.seek "edges" (prefix_key id kind) s))
            ≡ true
      listed d h = elim (Option-cases (db.get "edges" (edge_key id kind d) s)) [
        | inl missing ↦ absurd (ground (arith, h, missing))
        | inr (v, there) ↦
            laws.seek_complete "edges" (prefix_key id kind) (edge_key id kind d) v s there
              (starts_with-edge_key id kind d)
      ]

  -- `AddEdge` links the two ends of its edge, and no others.
  pub is_linked-add_edge :
      (e : Edge) (s t : db.State) (id kind d : String)
      → IsPlain e.from
      → IsPlain e.kind
      → IsPlain id
      → IsPlain kind
      → add_edge db e s ≡ some t
      → is_linked id kind d t
        ≡ ((same e.from id && same e.kind kind && same e.to d) || is_linked id kind d s)
  unfolding add_edge is_linked
  is_linked-add_edge e s t id kind d pf pe pi pk h =
      ap is_some (
        laws.get-put "edges" (edge_key e.from e.kind e.to) (edge e) s t h "edges"
          (edge_key id kind d))
      ∙ ap
          (λ b. is_some (
            if same "edges" "edges" && b
            then some (edge e)
            else db.get "edges" (edge_key id kind d) s))
          (same-edge_key e.from e.kind e.to id kind d pf pe pi pk)
      ∙ ground (arith, same_refl "edges")

  pub add_edge-IsGraph :
      (e : Edge) (s t : db.State)
      → IsPlain e.from
      → IsPlain e.kind
      → IsGraph s
      → add_edge db e s ≡ some t
      → IsGraph t
  unfolding add_edge
  add_edge-IsGraph e s t pf pe graph h k v g = elim (Bool-cases (same key k)) [
    | inl hit ↦ (
      e,
      ground (arith, laws.get-put "edges" key (edge e) s t h "edges" k, hit, g, same_refl "edges"),
      sym (eq_of_same key k hit),
      pf,
      pe,
    )
    | inr miss ↦ graph k v (
        ground
          (arith, laws.get-put "edges" key (edge e) s t h "edges" k, miss, g, same_refl "edges"))
  ]
    where
      key : String
      key = edge_key e.from e.kind e.to

  pub add_node-IsGraph :
      (n : Node) (s t : db.State) → IsGraph s → add_node db n s ≡ some t → IsGraph t
  unfolding add_node same
  add_node-IsGraph n s t graph h k v g =
      graph k v (sym (laws.get-put "nodes" n.id (node n) s t h "edges" k) ∙ g)

  pub is_linked-add_node :
      (n : Node) (s t : db.State) (id kind d : String)
      → add_node db n s ≡ some t
      → is_linked id kind d t ≡ is_linked id kind d s
  unfolding add_node is_linked same
  is_linked-add_node n s t id kind d h =
      ap is_some (laws.get-put "nodes" n.id (node n) s t h "edges" (edge_key id kind d))
