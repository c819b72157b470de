-- ===== src/Store/Graph.antt =====
-- internal/db/graphdb/graphdb.go: nodes and edges in a database.
--
-- JSON keeps these structs as they are, so the database holds them themselves.
pub mod Entries
pub mod Neighbors
pub mod Path
mod Samples
use gapi.Prelude.{
  ◌≡◌, refl, String, Bool, true, false, ◌&&◌, ◌||◌, List, [], ◌∷◌, Option, none, some, same,
}
use gapi.Prelude.Int.{ℤ}
use gapi.Store.Bbolt.{Bbolt, take_prefix}
use gapi.Store.Keys.{prefix_key, edge_key}

pub record Node : Type 0 where
  pub id : String
  pub type : String
  pub labels : List (String × String)

pub record Edge : Type 0 where
  pub from : String
  pub to : String
  pub kind : String
  pub weight : ℤ

-- The field `Kind` of a path is not set apart from its key.
pub record StoredPath : Type 0 where
  pub from : String
  pub to : String
  pub kind : String
  pub nodes : List String
  pub cost : ℤ
  pub timestamp : ℤ
  pub ttl : ℤ

pub data Value : Type 0 where
  node : Node → Value
  edge : Edge → Value
  path : StoredPath → Value

-- `json.Unmarshal` into an edge.
abbrev pub as_edge : Value → Option Edge
as_edge (node n) = none
as_edge (edge e) = some e
as_edge (path p) = none

abbrev pub cons_edge : Option Edge → Option (List Edge) → Option (List Edge)
cons_edge none es = none
cons_edge (some e) none = none
cons_edge (some e) (some es) = some (e ∷ es)

-- The loop's `result`; a value that is no edge ends it with an error.
unfoldable pub read_edges : List (String × Value) → Option (List Edge)
read_edges [] = some []
read_edges ((k, v) ∷ kvs) = cons_edge (as_edge v) (read_edges kvs)

module _ (db : Bbolt Value) where
  -- `New`: the three buckets, in one transaction.
  unfoldable pub new : db.State → Option db.State
  new s = elim (db.create_bucket "nodes" s) [
    | none ↦ none
    | some t ↦ elim (db.create_bucket "edges" t) [
      | none ↦ none
      | some u ↦ db.create_bucket "paths" u
    ]
  ]

  unfoldable pub add_node : Node → db.State → Option db.State
  add_node n s = db.put "nodes" n.id (node n) s

  unfoldable pub add_edge : Edge → db.State → Option db.State
  unfolding edge_key
  add_edge e s = db.put "edges" (edge_key e.from e.kind e.to) (edge e) s

  unfoldable pub neighbors : String → String → db.State → Option (List Edge)
  unfolding read_edges prefix_key
  neighbors id kind s =
      let p = prefix_key id kind in read_edges (take_prefix p (db.seek "edges" p s))
