-- ===== src/Store/Graph/Entries.antt =====
-- The entries of the bucket `edges`, and the edges that are read from them.
use gapi.Prelude.{
  ◌≡◌, refl, sym, ap, ◌∙◌, String, Bool, true, false, ◌&&◌, ◌||◌, List, [], ◌∷◌, some, same,
  same_refl, eq_of_same, arith, Bool-eq, if◌then◌else◌,
}
use gapi.Store.Bbolt.{AllEntries, take_prefix, has_entry}
use gapi.Store.Keys.{prefix_key, edge_key, IsPlain, edge_key_inj, edge_key_of_prefix}
use gapi.Store.Graph.{Edge, Value, edge, read_edges}
use text.Mathlib.Text.{starts_with}

-- An edge of the list leads to `d`.
unfoldable pub leads_to : String → List Edge → Bool
leads_to d [] = false
leads_to d (e ∷ es) = same e.to d || leads_to d es

-- A value of the bucket `edges` is an edge, under its own key, and of names without the separator.
abbrev pub IsStored : String → Value → Type 0
IsStored k v =
    (e : Edge) × (v ≡ edge e) × (k ≡ edge_key e.from e.kind e.to) × IsPlain e.from × IsPlain e.kind

abbrev pub OutOf : String → String → List Edge → Type 0
OutOf id kind [] = Unit
OutOf id kind (e ∷ es) = (e.from ≡ id) × (e.kind ≡ kind) × OutOf id kind es

-- An entry of an edge from `id` of a kind.
abbrev pub IsEntry : String → String → String → Value → Type 0
IsEntry id kind k v =
    (e : Edge) × (v ≡ edge e) × (k ≡ edge_key id kind e.to) × (e.from ≡ id) × (e.kind ≡ kind)

-- Two keys are the same exactly if all their parts are.
pub same-edge_key :
    (f k t f' k' t' : String)
    → IsPlain f
    → IsPlain k
    → IsPlain f'
    → IsPlain k'
    → same (edge_key f k t) (edge_key f' k' t') ≡ (same f f' && same k k' && same t t')
same-edge_key f k t f' k' t' pf pk pf' pk' = Bool-eq _ _ split join
  where
    split :
        same (edge_key f k t) (edge_key f' k' t') ≡ true
        → (same f f' && same k k' && same t t') ≡ true
    split h =
        let (ef, ek, et) = edge_key_inj f k t f' k' t' pf pk pf' pk' (eq_of_same _ _ h) in
        ground (arith, ef, ek, et, same_refl f, same_refl k, same_refl t)

    join :
        (same f f' && same k k' && same t t') ≡ true
        → same (edge_key f k t) (edge_key f' k' t') ≡ true
    join h =
        ground
          (arith, h, eq_of_same f f', eq_of_same k k', eq_of_same t t', same_refl (edge_key f k t))

pub read_edges_lem :
    (id kind : String) (kvs : List (String × Value))
    → IsPlain id
    → IsPlain kind
    → AllEntries (IsEntry id kind) kvs
    → (es : List Edge) × (read_edges kvs ≡ some es)
      × ((d : String) → leads_to d es ≡ has_entry (edge_key id kind d) kvs)
      × OutOf id kind es
unfolding read_edges leads_to has_entry
read_edges_lem id kind [] pi pk h = ([], refl, λ d. refl, tt)
read_edges_lem id kind ((k, v) ∷ kvs) pi pk ((e, is_edge, key, from, kind_of), h) =
    let (es, read, leads, out) = read_edges_lem id kind kvs pi pk h in
    (
      e ∷ es,
      ground (arith, is_edge, read),
      λ d. ground (
        arith,
        leads d,
        key,
        same-edge_key id kind e.to id kind d pi pk pi pk,
        same_refl id,
        same_refl kind,
      ),
      (from, kind_of, out),
    )

pub take_prefix-has_prefix :
    (p : String) (kvs : List (String × Value))
    → AllEntries (λ k v. starts_with k p ≡ true) (take_prefix p kvs)
unfolding take_prefix
take_prefix-has_prefix p [] = tt
take_prefix-has_prefix p ((k, v) ∷ kvs) = by (starts_with k p) refl (take_prefix-has_prefix p kvs)
  where
    by :
        (b : Bool)
        → starts_with k p ≡ b
        → AllEntries (λ k v. starts_with k p ≡ true) (take_prefix p kvs)
        → AllEntries (λ k v. starts_with k p ≡ true) (if b then (k, v) ∷ take_prefix p kvs else [])
    by true hit rest = (hit, rest)
    by false miss rest = tt

-- Two facts about each entry give a third.
pub AllEntries-zip :
    (P Q R : String → Value → Type 0) (kvs : List (String × Value))
    → ((k : String) (v : Value) → P k v → Q k v → R k v)
    → AllEntries P kvs
    → AllEntries Q kvs
    → AllEntries R kvs
AllEntries-zip P Q R [] f p q = tt
AllEntries-zip P Q R ((k, v) ∷ kvs) f (p, ps) (q, qs) =
    (f k v p q, AllEntries-zip P Q R kvs f ps qs)

pub stored-IsEntry :
    (id kind k : String) (v : Value)
    → IsPlain id
    → IsPlain kind
    → IsStored k v
    → starts_with k (prefix_key id kind) ≡ true
    → IsEntry id kind k v
stored-IsEntry id kind k v pi pk (e, is_edge, key, pf, pe) h =
    let (from, kind_of) =
      edge_key_of_prefix e.from e.kind e.to id kind pf pe pi pk
        (ap (λ j. starts_with j (prefix_key id kind)) (sym key) ∙ h) in
    (
      e,
      is_edge,
      key ∙ ap (λ f. edge_key f e.kind e.to) from ∙ ap (λ f. edge_key id f e.to) kind_of,
      from,
      kind_of,
    )
