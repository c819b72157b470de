-- ===== src/Store/Bbolt.antt =====
-- The key-value database that internal/db opens in memory, go.etcd.io/bbolt, as a parameter: what
-- the adapters call of it, and what they rely on.
use gapi.Prelude.{
  ◌≡◌, String, Bool, true, false, ◌&&◌, ◌||◌, List, [], ◌∷◌, Option, none, some, same, elem,
  is_some, if◌then◌else◌,
}
use text.Mathlib.Text.{starts_with}

-- `none` is a transaction that failed and was rolled back.
pub record Bbolt (V : Type 0) : Type 1 where
  pub State : Type 0
  pub has_bucket : String → State → Bool
  pub create_bucket : String → State → Option State
  pub put : String → String → V → State → Option State
  pub delete : String → String → State → Option State
  pub get : String → String → State → Option V
  -- The keys in their order.
  pub keys : String → State → List String
  -- What a cursor walks, from the first key that is not below the one that is sought.
  pub seek : String → String → State → List (String × V)

module _ {V : Type 0} where
  -- `for k, v := cursor.Seek(p); k != nil && bytes.HasPrefix(k, p); k, v = cursor.Next()`
  unfoldable pub take_prefix : String → List (String × V) → List (String × V)
  take_prefix p [] = []
  take_prefix p ((k, v) ∷ kvs) = if starts_with k p then (k, v) ∷ take_prefix p kvs else []

  unfoldable pub has_entry : String → List (String × V) → Bool
  has_entry k [] = false
  has_entry k ((j, v) ∷ kvs) = same j k || has_entry k kvs

  abbrev pub AllEntries : (String → V → Type 0) → List (String × V) → Type 0
  AllEntries P [] = Unit
  AllEntries P ((k, v) ∷ kvs) = P k v × AllEntries P kvs

  -- Keys are compared bytewise and kept in order, each once, so those with a common beginning stand
  -- together, from where that beginning is sought.
  pub record IsBbolt (db : Bbolt V) : Type 0 where
    pub get-put :
        (b k : String) (v : V) (s t : db.State)
        → db.put b k v s ≡ some t
        → (c j : String) → db.get c j t ≡ (if same b c && same k j then some v else db.get c j s)
    pub get_missing :
        (b k : String) (s : db.State) → db.has_bucket b s ≡ false → db.get b k s ≡ none
    pub elem-keys : (b k : String) (s : db.State) → elem k (db.keys b s) ≡ is_some (db.get b k s)
    pub has-put :
        (b k : String) (v : V) (s t : db.State)
        → db.put b k v s ≡ some t
        → (c : String) → db.has_bucket c t ≡ db.has_bucket c s
    pub get-delete :
        (b k : String) (s t : db.State)
        → db.delete b k s ≡ some t
        → (c j : String) → db.get c j t ≡ (if same b c && same k j then none else db.get c j s)
    pub has-delete :
        (b k : String) (s t : db.State)
        → db.delete b k s ≡ some t
        → (c : String) → db.has_bucket c t ≡ db.has_bucket c s
    pub get-create :
        (b : String) (s t : db.State)
        → db.create_bucket b s ≡ some t
        → (c j : String) → db.get c j t ≡ db.get c j s
    pub has-create :
        (b : String) (s t : db.State)
        → db.create_bucket b s ≡ some t
        → (c : String) → db.has_bucket c t ≡ (same b c || db.has_bucket c s)
    pub seek_sound :
        (b p : String) (s : db.State)
        → AllEntries (λ k v. db.get b k s ≡ some v) (take_prefix p (db.seek b p s))
    pub seek_complete :
        (b p k : String) (v : V) (s : db.State)
        → db.get b k s ≡ some v
        → starts_with k p ≡ true
        → has_entry k (take_prefix p (db.seek b p s)) ≡ true
