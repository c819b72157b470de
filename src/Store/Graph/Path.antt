-- ===== src/Store/Graph/Path.antt =====
-- internal/db/graphdb/graphdb.go: `ShortestPath`, with its queue, and `GetStoredPath`.
pub mod Rounds
pub mod Found
pub mod Ends
pub mod Reached
pub mod Offers
pub mod Priced
pub mod Settled
pub mod Least
pub mod Kept
pub mod Pick
use gapi.Prelude.{
  ℕ, zero, suc, ◌≡◌, String, Bool, true, false, not, ◌&&◌, ◌||◌, List, [], ◌∷◌, ◌++◌, Option, none,
  some, same, elem, length, map, if◌then◌else◌,
}
use Prim.Native.String.{◌++◌ as str_append}
use gapi.Prelude.Int.{ℤ, pos, ◌≤ℤ◌, add_int, sub_int, ltb_int}
use gapi.Store.Bbolt.{Bbolt}
use gapi.Store.Graph.{Edge, StoredPath, Value, node, edge, path, neighbors}

-- The heap's own index is left out.
pub record Item : Type 0 where
  pub node : String
  pub cost : ℤ
  pub path : List String
  pub priority : ℤ

abbrev pub nodes : List Item → List String
nodes q = map (λ (x : Item). x.node) q

abbrev pub All : (Item → Type 0) → List Item → Type 0
All P [] = Unit
All P (x ∷ q) = P x × All P q

-- `Less`
abbrev pub less : Item → Item → Bool
less x y = ltb_int x.priority y.priority

-- `container/heap` on the queue: `Pop` takes an item that no other is less than. Which of several
-- it takes is left open.
abbrev pub Pop : Type 0
Pop = List Item → Option (Item × List Item)

pub record IsPop (pop : Pop) : Type 1 where
  pub empty : (q : List Item) → pop q ≡ none → q ≡ []
  pub same_length :
      (q rest : List Item) (x : Item) → pop q ≡ some (x, rest) → length q ≡ suc (length rest)
  pub same_nodes :
      (q rest : List Item) (x : Item)
      → pop q ≡ some (x, rest)
      → (d : String) → elem d (nodes q) ≡ (same x.node d || elem d (nodes rest))
  pub same_items :
      (P : Item → Type 0) (q rest : List Item) (x : Item)
      → pop q ≡ some (x, rest)
      → All P q
      → P x × All P rest
  pub all_items :
      (P : Item → Type 0) (q rest : List Item) (x : Item)
      → pop q ≡ some (x, rest)
      → P x
      → All P rest
      → All P q
  pub least :
      (q rest : List Item) (x : Item) → pop q ≡ some (x, rest) → All (λ y. less y x ≡ false) rest

pub data Search : Type 0 where
  found : List String → ℤ → Search
  no_path failed out_of_fuel : Search

-- The variables of the loop: the queue, and the nodes that are visited.
pub record Round : Type 0 where
  pub queue : List Item
  pub visited : List String

pub data Status : Type 0 where
  continue : Round → Status
  stop : Search → Status

-- The item that is pushed for an edge.
abbrev pub pushed : Item → Edge → Item
pushed x e =
    let new_cost = add_int x.cost e.weight in
    record { node = e.to; cost = new_cost; path = x.path ++ e.to ∷ []; priority = new_cost }

unfoldable pub push_edges : Item → List String → List Edge → List Item → List Item
push_edges x visited [] q = q
push_edges x visited (e ∷ es) q =
    push_edges x visited es (if elem e.to visited then q else pushed x e ∷ q)

unfoldable pub start_round : String → Round
start_round start = record {
  queue = record { node = start; cost = pos 0; path = start ∷ []; priority = pos 0 } ∷ [];
  visited = [];
}

module _ (pop : Pop) (neighbors_of : String → Option (List Edge)) (end : String) where
  abbrev pub expand : Item → List String → List Item → Option (List Edge) → Status
  expand x visited rest none = stop failed
  expand x visited rest (some es) =
      continue (record { queue = push_edges x visited es rest; visited = visited })

  -- One round, on the item that was popped.
  unfoldable pub visit : Round → Option (Item × List Item) → Status
  unfolding push_edges
  visit r none = stop no_path
  visit r (some (x, rest)) =
      if elem x.node r.visited
      then continue (record r { queue = rest })
      else if same x.node end
      then stop (found x.path x.cost)
      else expand x (x.node ∷ r.visited) rest (neighbors_of x.node)

  unfoldable pub step : Round → Status
  unfolding visit
  step r = visit r (pop r.queue)

  -- `for pq.Len() > 0`
  unfoldable pub run : ℕ → Round → Search
  run zero r = out_of_fuel
  run (suc fuel) r = elim (step r) [ continue r' ↦ run fuel r' | stop s ↦ s ]

  unfoldable pub shortest_path : ℕ → String → Search
  unfolding run start_round
  shortest_path fuel start = run fuel (start_round start)

-- The key of a stored path.
unfoldable pub path_key : String → String → String → String
path_key start kind end = str_append start (str_append "|" (str_append kind (str_append "|" end)))

abbrev pub as_path : Value → Option StoredPath
as_path (node n) = none
as_path (edge e) = none
as_path (path p) = some p

pub data Stored : Type 0 where
  stored : StoredPath → Stored
  not_stored unreadable expired : Stored

module _ (db : Bbolt Value) where
  -- `_ = g.db.Update(...)`: an error leaves the store as it is, and is ignored.
  abbrev pub or_same : db.State → Option db.State → db.State
  or_same s none = s
  or_same s (some t) = t

  abbrev pub keep_path : String → String → String → ℤ → ℤ → Search → db.State → db.State × Search
  keep_path start end kind ttl now (found nodes cost) s =
      let p : StoredPath = record {
        from = start;
        to = end;
        kind = kind;
        nodes = nodes;
        cost = cost;
        timestamp = now;
        ttl = ttl;
      } in
      (or_same s (db.put "paths" (path_key start kind end) (path p) s), found nodes cost)
  keep_path start end kind ttl now result s = (s, result)

  -- `ShortestPath`, at the time `now`.
  unfoldable pub find_path :
      Pop → ℕ → String → String → String → ℤ → ℤ → db.State → db.State × Search
  unfolding shortest_path path_key
  find_path pop fuel start end kind ttl now s =
      keep_path start end kind ttl now
        (shortest_path pop (λ id. neighbors db id kind s) end fuel start) s

  abbrev pub check_expiry : ℤ → StoredPath → Stored
  check_expiry now p = if ltb_int p.ttl (sub_int now p.timestamp) then expired else stored p

  abbrev pub read_path : ℤ → Option StoredPath → Stored
  read_path now none = unreadable
  read_path now (some p) = check_expiry now p

  abbrev pub read_value : ℤ → Option Value → Stored
  read_value now none = not_stored
  read_value now (some v) = read_path now (as_path v)

  -- `GetStoredPath`, at the time `now`.
  unfoldable pub get_stored_path : String → String → String → ℤ → db.State → Stored
  unfolding path_key
  get_stored_path start end kind now s = read_value now (db.get "paths" (path_key start kind end) s)
