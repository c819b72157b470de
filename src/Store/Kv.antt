-- ===== src/Store/Kv.antt =====
-- internal/db/kvdb/kvdb.go: values under keys, in buckets that are made when they are written to.
--
-- A value is kept as it is: JSON brings back what it was given, for the structs that the program
-- stores. The mutex makes each operation one step.
use gapi.Prelude.{
  ◌≡◌, sym, ap, ◌∙◌, String, ◌&&◌, List, [], Option, none, some, same, elem, is_some, arith,
  if◌then◌else◌, Option-cases, Bool-cases, inl, inr,
}
use gapi.Store.Bbolt.{Bbolt, IsBbolt}

module _ {V : Type 0} (db : Bbolt V) where
  abbrev pub put_in : String → String → V → Option db.State → Option db.State
  put_in b k v none = none
  put_in b k v (some s) = db.put b k v s

  unfoldable pub set : String → String → V → db.State → Option db.State
  set b k v s = put_in b k v (db.create_bucket b s)

  unfoldable pub get : String → String → db.State → Option V
  get b k s = if db.has_bucket b s then db.get b k s else none

  unfoldable pub delete : String → String → db.State → Option db.State
  delete b k s = if db.has_bucket b s then db.delete b k s else none

  -- A missing bucket has no keys, and that is no error.
  unfoldable pub keys : String → db.State → List String
  keys b s = if db.has_bucket b s then db.keys b s else []

module _ {V : Type 0} (db : Bbolt V) (laws : IsBbolt db) where
  get-eq : (b k : String) (s : db.State) → get db b k s ≡ db.get b k s
  unfolding get
  get-eq b k s = ground (arith, laws.get_missing b k s)

  -- A read after a write: the value, under its key, and what was there, under every other.
  pub get-set :
      (b k : String) (v : V) (s t : db.State)
      → set db b k v s ≡ some t
      → (c j : String) → get db c j t ≡ (if same b c && same k j then some v else get db c j s)
  unfolding set
  get-set b k v s t h c j = elim (Option-cases (db.create_bucket b s)) [
    | inl failed ↦ absurd (ground (arith, h, failed))
    | inr (u, made) ↦ ground (
      arith,
      get-eq c j t,
      get-eq c j s,
      laws.get-put b k v u t (sym (ap (put_in db b k v) made) ∙ h) c j,
      laws.get-create b s u made c j,
    )
  ]

  -- A read after a delete: nothing under its key, and what was there, under every other.
  pub get-delete :
      (b k : String) (s t : db.State)
      → delete db b k s ≡ some t
      → (c j : String) → get db c j t ≡ (if same b c && same k j then none else get db c j s)
  unfolding delete
  get-delete b k s t h c j = elim (Bool-cases (db.has_bucket b s)) [
    | inl there ↦ ground (
      arith,
      get-eq c j t,
      get-eq c j s,
      laws.get-delete b k s t (sym (ap (λ x. if x then db.delete b k s else none) there) ∙ h) c j,
    )
    | inr missing ↦ absurd (ground (arith, h, missing))
  ]

  -- The keys are those that a read finds.
  pub elem-keys : (b k : String) (s : db.State) → elem k (keys db b s) ≡ is_some (get db b k s)
  unfolding keys get elem
  elem-keys b k s = ground (arith, laws.elem-keys b k s)
