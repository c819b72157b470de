-- ===== src/Store/Interface.antt =====
-- core/store/interface.go: `HybridStore`, of which the registry is a client, and the laws of its
-- operations.
use gapi.Prelude.{
  ◌≡◌, ◌⊎◌, none, String, Bool, ◌&&◌, ◌||◌, List, Option, some, same, elem, is_some, if◌then◌else◌,
}
use gapi.Prelude.Int.{ℤ, ltb_int, sub_int}
use gapi.Store.Graph.{Node, Edge}
use gapi.Store.Graph.Path.{Search, found, Stored, stored, expired}
use gapi.Store.Graph.Path.Found.{Walk}
use gapi.Store.Graph.Entries.{leads_to}
use gapi.Store.Keys.{IsPlain}

-- `none` is an error, after which nothing has changed. `clear_graph` is there if the store has such
-- a method, which the interface does not ask for.
pub record HybridStore (A : Type 0) : Type 1 where
  pub State : Type 0
  pub set : String → String → A → State → Option State
  pub get : String → String → State → Option A
  pub delete : String → String → State → Option State
  pub keys : String → State → Option (List String)
  pub add_node : Node → State → Option State
  pub add_edge : Edge → State → Option State
  pub neighbors : String → String → State → Option (List Edge)
  -- From, to, kind, the time to live and the time of the call.
  pub shortest_path : String → String → String → ℤ → ℤ → State → State × Search
  pub get_stored_path : String → String → String → ℤ → State → Stored
  pub clear_graph : Option (State → Option State)

-- Records and edges do not disturb one another; `Neighbors` answers by the edges that were added.
pub record IsHybridStore {A : Type 0} (st : HybridStore A) : Type 1 where
  pub IsValid : st.State → Type 0
  pub is_linked : String → String → String → st.State → Bool
  pub get-set :
      (b k : String) (v : A) (s t : st.State)
      → st.set b k v s ≡ some t
      → (c j : String) → st.get c j t ≡ (if same b c && same k j then some v else st.get c j s)
  pub get-delete :
      (b k : String) (s t : st.State)
      → st.delete b k s ≡ some t
      → (c j : String) → st.get c j t ≡ (if same b c && same k j then none else st.get c j s)
  pub elem-keys :
      (b k : String) (s : st.State)
      → (ks : List String) × (st.keys b s ≡ some ks) × (elem k ks ≡ is_some (st.get b k s))
  pub get-add_node :
      (n : Node) (s t : st.State)
      → st.add_node n s ≡ some t
      → (c j : String) → st.get c j t ≡ st.get c j s
  pub get-add_edge :
      (e : Edge) (s t : st.State)
      → st.add_edge e s ≡ some t
      → (c j : String) → st.get c j t ≡ st.get c j s
  pub get-shortest_path :
      (start end kind : String) (ttl now : ℤ) (s : st.State) (c j : String)
      → st.get c j (st.shortest_path start end kind ttl now s).0 ≡ st.get c j s
  pub delete-IsValid :
      (b k : String) (s t : st.State) → st.delete b k s ≡ some t → IsValid s → IsValid t
  pub shortest_path-IsValid :
      (start end kind : String) (ttl now : ℤ) (s : st.State)
      → IsValid s
      → IsValid (st.shortest_path start end kind ttl now s).0
  pub set-IsValid :
      (b k : String) (v : A) (s t : st.State) → st.set b k v s ≡ some t → IsValid s → IsValid t
  pub add_node-IsValid :
      (n : Node) (s t : st.State) → st.add_node n s ≡ some t → IsValid s → IsValid t
  pub add_edge-IsValid :
      (e : Edge) (s t : st.State)
      → IsPlain e.from
      → IsPlain e.kind
      → st.add_edge e s ≡ some t
      → IsValid s
      → IsValid t
  pub is_linked-set :
      (b k : String) (v : A) (s t : st.State)
      → st.set b k v s ≡ some t
      → (id kind d : String) → is_linked id kind d t ≡ is_linked id kind d s
  pub is_linked-delete :
      (b k : String) (s t : st.State)
      → st.delete b k s ≡ some t
      → (id kind d : String) → is_linked id kind d t ≡ is_linked id kind d s
  pub is_linked-shortest_path :
      (start end kind : String) (ttl now : ℤ) (s : st.State) (id knd d : String)
      → is_linked id knd d (st.shortest_path start end kind ttl now s).0 ≡ is_linked id knd d s
  pub is_linked-add_node :
      (n : Node) (s t : st.State)
      → st.add_node n s ≡ some t
      → (id kind d : String) → is_linked id kind d t ≡ is_linked id kind d s
  pub is_linked-add_edge :
      (e : Edge) (s t : st.State)
      → IsPlain e.from
      → IsPlain e.kind
      → st.add_edge e s ≡ some t
      → (id kind d : String) → IsPlain id
      → IsPlain kind
      → is_linked id kind d t
        ≡ ((same e.from id && same e.kind kind && same e.to d) || is_linked id kind d s)
  pub neighbors_lem :
      (id kind : String) (s : st.State)
      → IsPlain id
      → IsPlain kind
      → IsValid s
      → (es : List Edge) × (st.neighbors id kind s ≡ some es)
        × ((d : String) → leads_to d es ≡ is_linked id kind d s)
  -- A path that is found is a walk along what `Neighbors` answers, and its cost the walk's.
  pub shortest_path-Walk :
      (start end kind : String) (ttl now : ℤ) (s t : st.State) (nodes : List String) (cost : ℤ)
      → st.shortest_path start end kind ttl now s ≡ (t, found nodes cost)
      → Walk (λ id. st.neighbors id kind s) start nodes end cost
  -- It is read back, until its time to live has passed, unless it could not be written.
  pub get_stored_path-shortest_path :
      (start end kind : String) (ttl now : ℤ) (s t : st.State) (nodes : List String) (cost : ℤ)
      → st.shortest_path start end kind ttl now s ≡ (t, found nodes cost)
      → (t ≡ s)
        ⊎ ((later : ℤ)
            → st.get_stored_path start end kind later t ≡ (
                if ltb_int ttl (sub_int later now)
                then expired
                else stored (record {
                  from = start;
                  to = end;
                  kind = kind;
                  nodes = nodes;
                  cost = cost;
                  timestamp = now;
                  ttl = ttl;
                })))
