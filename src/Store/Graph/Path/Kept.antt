-- ===== src/Store/Graph/Path/Kept.antt =====
-- A path that was found is kept for its time to live.
use gapi.Prelude.{
  ℕ, ◌≡◌, ap, ◌∙◌, refl, Option, none, ◌⊎◌, inl, inr, String, List, some, same_refl, arith,
  if◌then◌else◌,
}
use mathlib.Core.Path.{subst}
use gapi.Prelude.Int.{ℤ, ltb_int, sub_int}
use gapi.Store.Bbolt.{Bbolt, IsBbolt}
use gapi.Store.Graph.{StoredPath, Value, path, neighbors}
use gapi.Store.Graph.Path.{
  Pop, Search, found, no_path, failed, out_of_fuel, shortest_path, path_key, stored, expired,
  or_same, keep_path, find_path, read_value, get_stored_path,
}

abbrev pub kept : String → String → String → ℤ → ℤ → List String → ℤ → StoredPath
kept start end kind ttl now nodes cost = record {
  from = start;
  to = end;
  kind = kind;
  nodes = nodes;
  cost = cost;
  timestamp = now;
  ttl = ttl;
}

module _ (db : Bbolt Value) where
  -- A search changes the store by writing one stored path, or not at all.
  pub find_path-or_same :
      (pop : Pop) (fuel : ℕ) (start end kind : String) (ttl now : ℤ) (s : db.State)
      → ((find_path db pop fuel start end kind ttl now s).0 ≡ s)
        ⊎ ((v : Value) × (db.put "paths" (path_key start kind end) v s
              ≡ some (find_path db pop fuel start end kind ttl now s).0))
  unfolding find_path
  find_path-or_same pop fuel start end kind ttl now s =
      by (shortest_path pop (λ id. neighbors db id kind s) end fuel start)
    where
      wrote :
          (v : Value) (o : Option db.State)
          → db.put "paths" (path_key start kind end) v s ≡ o
          → (or_same db s o ≡ s)
            ⊎ ((w : Value) × (db.put "paths" (path_key start kind end) w s ≡ some (or_same db s o)))
      wrote v none put = inl refl
      wrote v (some u) put = inr (v, put)

      by :
          (r : Search)
          → ((keep_path db start end kind ttl now r s).0 ≡ s)
            ⊎ ((v : Value) × (db.put "paths" (path_key start kind end) v s
                  ≡ some (keep_path db start end kind ttl now r s).0))
      by no_path = inl refl
      by failed = inl refl
      by out_of_fuel = inl refl
      by (found n c) =
          let p = kept start end kind ttl now n c in
          wrote (path p) (db.put "paths" (path_key start kind end) (path p) s) refl

  pub find_path-shortest_path :
      (pop : Pop) (fuel : ℕ) (start end kind : String) (ttl now : ℤ) (s : db.State)
      → (find_path db pop fuel start end kind ttl now s).1
        ≡ shortest_path pop (λ id. neighbors db id kind s) end fuel start
  unfolding find_path
  find_path-shortest_path pop fuel start end kind ttl now s =
      by (shortest_path pop (λ id. neighbors db id kind s) end fuel start)
    where
      by : (r : Search) → (keep_path db start end kind ttl now r s).1 ≡ r
      by no_path = refl
      by failed = refl
      by out_of_fuel = refl
      by (found n c) = refl

module _ (db : Bbolt Value) (laws : IsBbolt db) (start end kind : String) (ttl now : ℤ) where
  -- What `GetStoredPath` answers while the path is kept, and after that.
  abbrev Answers : db.State → List String → ℤ → Type 0
  Answers t nodes cost =
      (later : ℤ)
      → get_stored_path db start end kind later t ≡ (
          if ltb_int ttl (sub_int later now)
          then expired
          else stored (kept start end kind ttl now nodes cost))

  put-Answers :
      (s t : db.State) (n nodes : List String) (c cost : ℤ)
      → db.put "paths" (path_key start kind end) (path (kept start end kind ttl now n c)) s ≡ some t
      → found n c ≡ found nodes cost
      → Answers t nodes cost
  unfolding get_stored_path
  put-Answers s t n nodes c cost put same_answer later =
      let key = path_key start kind end in
      let got = laws.get-put "paths" key _ s t put "paths" key in
      let there : db.get "paths" key t ≡ some (path (kept start end kind ttl now n c)) =
        ground (arith, got, same_refl "paths", same_refl key) in
      let same_nodes : n ≡ nodes = ground (arith, same_answer) in
      let same_cost : c ≡ cost = ground (arith, same_answer) in
      ap (read_value db later) there
      ∙ ap (λ m. read_value db later (some (path (kept start end kind ttl now m c)))) same_nodes
      ∙ ap (λ k. read_value db later (some (path (kept start end kind ttl now nodes k)))) same_cost

  -- After a search that found a path: the store is as it was, or it answers with the path.
  pub find_path-Answers :
      (pop : Pop) (fuel : ℕ) (s t : db.State) (nodes : List String) (cost : ℤ)
      → find_path db pop fuel start end kind ttl now s ≡ (t, found nodes cost)
      → (t ≡ s) ⊎ Answers t nodes cost
  unfolding find_path
  find_path-Answers pop fuel s t nodes cost h =
      by (shortest_path pop (λ id. neighbors db id kind s) end fuel start) h
    where
      wrote :
          (n : List String) (c : ℤ) (o : Option db.State)
          → db.put "paths" (path_key start kind end) (path (kept start end kind ttl now n c)) s ≡ o
          → found n c ≡ found nodes cost
          → (or_same db s o ≡ s) ⊎ Answers (or_same db s o) nodes cost
      wrote n c none put e = inl refl
      wrote n c (some u) put e = inr (put-Answers s u n nodes c cost put e)

      by :
          (r : Search)
          → keep_path db start end kind ttl now r s ≡ (t, found nodes cost)
          → (t ≡ s) ⊎ Answers t nodes cost
      by no_path e = absurd cc
      by failed e = absurd cc
      by out_of_fuel e = absurd cc
      by (found n c) e =
          subst (λ u. (u ≡ s) ⊎ Answers u nodes cost) (ap (λ p. p.0) e)
            (wrote n c
              (db.put "paths" (path_key start kind end) (path (kept start end kind ttl now n c)) s)
              refl (ap (λ p. p.1) e))
