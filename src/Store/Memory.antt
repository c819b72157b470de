-- ===== src/Store/Memory.antt =====
-- A database on a list of entries, the newest first, with the laws that the adapters rely on: they
-- can be met. It makes a bucket of what is written to it, and every bucket is there.
use gapi.Prelude.{
  ◌≡◌, refl, sym, ap, ◌∙◌, String, Bool, true, false, ◌&&◌, List, [], ◌∷◌, Option, none, some, same,
  eq_of_same, elem, is_some, arith, if◌then◌else◌,
}
use text.Mathlib.Text.{starts_with}
use gapi.Store.Bbolt.{Bbolt, IsBbolt, AllEntries, take_prefix, has_entry}

abbrev pub Entries : Type 0 → Type 0
Entries V = List (String × String × V)

module _ {V : Type 0} where
  unfoldable pub find : String → String → Entries V → Option V
  find b k [] = none
  find b k ((c, j, v) ∷ s) = if same c b && same j k then some v else find b k s

  unfoldable pub keys_of : String → Entries V → List String
  keys_of b [] = []
  keys_of b ((c, j, v) ∷ s) = if same c b then j ∷ keys_of b s else keys_of b s

  abbrev pub cons_found : String → Option V → List (String × V) → List (String × V)
  cons_found k none kvs = kvs
  cons_found k (some v) kvs = (k, v) ∷ kvs

  -- The entries of the keys with a beginning.
  unfoldable pub scan : String → String → Entries V → List String → List (String × V)
  scan b p s [] = []
  scan b p s (k ∷ ks) =
      if starts_with k p then cons_found k (find b k s) (scan b p s ks) else scan b p s ks

  unfoldable pub remove : String → String → Entries V → Entries V
  remove b k [] = []
  remove b k ((c, j, v) ∷ s) =
      if same c b && same j k then remove b k s else (c, j, v) ∷ remove b k s

  abbrev pub memory : Bbolt V
  memory = record {
    State = Entries V;
    has_bucket = λ b s. true;
    create_bucket = λ b s. some s;
    put = λ b k v s. some ((b, k, v) ∷ s);
    delete = λ b k s. some (remove b k s);
    get = find;
    keys = keys_of;
    seek = λ b p s. scan b p s (keys_of b s);
  }

  elem-keys_of : (b k : String) (s : Entries V) → elem k (keys_of b s) ≡ is_some (find b k s)
  unfolding keys_of find elem
  elem-keys_of b k [] = refl
  elem-keys_of b k ((c, j, v) ∷ s) = ground (arith, elem-keys_of b k s)

  scan_sound :
      (b p : String) (s : Entries V) (ks : List String)
      → AllEntries (λ k v. find b k s ≡ some v) (take_prefix p (scan b p s ks))
  unfolding scan take_prefix
  scan_sound b p s [] = tt
  scan_sound b p s (k ∷ ks) = by (starts_with k p) refl (find b k s) refl (scan_sound b p s ks)
    where
      by :
          (hit : Bool)
          → starts_with k p ≡ hit
          → (o : Option V) → find b k s ≡ o
          → AllEntries (λ k v. find b k s ≡ some v) (take_prefix p (scan b p s ks))
          → AllEntries
              (λ k v. find b k s ≡ some v)
              (take_prefix p (if hit then cons_found k o (scan b p s ks) else scan b p s ks))
      by false miss o found rest = rest
      by true hit none found rest = rest
      by true hit (some v) found rest = rw hit (found, rest)

  scan_complete :
      (b p k : String) (v : V) (s : Entries V) (ks : List String)
      → elem k ks ≡ true
      → find b k s ≡ some v
      → starts_with k p ≡ true
      → has_entry k (take_prefix p (scan b p s ks)) ≡ true
  unfolding scan take_prefix has_entry elem
  scan_complete b p k v s [] h found hit = absurd cc
  scan_complete b p k v s (j ∷ ks) h found hit =
      by (starts_with j p) refl (find b j s) refl (same j k) refl
        (λ there. scan_complete b p k v s ks there found hit)
    where
      by :
          (begins : Bool)
          → starts_with j p ≡ begins
          → (o : Option V) → find b j s ≡ o
          → (is_k : Bool) → same j k ≡ is_k
          → (elem k ks ≡ true → has_entry k (take_prefix p (scan b p s ks)) ≡ true)
          → has_entry k
              (take_prefix p (if begins then cons_found j o (scan b p s ks) else scan b p s ks))
            ≡ true
      by true begins (some w) there true is_k rest = rw begins (rw is_k refl)
      by true begins (some w) there false is_k rest =
          rw begins (rw is_k (rest (ground (arith, h, is_k))))
      by true begins none there true is_k rest =
          absurd (ground (arith, found, there, ap (λ i. find b i s) (eq_of_same j k is_k)))
      by true begins none there false is_k rest = rest (ground (arith, h, is_k))
      by false misses o there true is_k rest =
          absurd (ground (arith, hit, misses, ap (λ i. starts_with i p) (eq_of_same j k is_k)))
      by false misses o there false is_k rest = rest (ground (arith, h, is_k))

  put-reads :
      (b k : String) (v : V) (s t : Entries V)
      → some ((b, k, v) ∷ s) ≡ some t
      → (c j : String) → find c j t ≡ (if same b c && same k j then some v else find c j s)
  unfolding find
  put-reads b k v s t h c j =
      let e : (b, k, v) ∷ s ≡ t = ground (arith, h) in sym (ap (λ x. find c j x) e)

  find-remove :
      (b k d i : String) (s : Entries V)
      → find d i (remove b k s) ≡ (if same b d && same k i then none else find d i s)
  unfolding find remove
  find-remove b k d i [] = ground arith
  find-remove b k d i ((c, j, v) ∷ s) =
      by (same c b) refl (same j k) refl (same b d) refl (same k i) refl (find-remove b k d i s)
    where
      kept : Option V → Option V
      kept o = if same c d && same j i then some v else o

      by :
          (cb : Bool)
          → same c b ≡ cb
          → (jk : Bool) → same j k ≡ jk
          → (bd : Bool) → same b d ≡ bd
          → (ki : Bool) → same k i ≡ ki
          → find d i (remove b k s) ≡ (if bd && ki then none else find d i s)
          → find d i (if cb && jk then remove b k s else (c, j, v) ∷ remove b k s)
            ≡ (if bd && ki then none else kept (find d i s))
      by true cb true jk bd e1 ki e2 ih = ground (
        arith,
        ih,
        e1,
        e2,
        ap (λ x. same x d) (eq_of_same c b cb),
        ap (λ x. same x i) (eq_of_same j k jk),
      )
      by false cb jk e true bd true ki ih =
          ground (arith, ih, cb, ap (λ x. same c x) (eq_of_same b d bd))
      by true cb false jk true bd true ki ih =
          ground (arith, ih, jk, ap (λ x. same j x) (eq_of_same k i ki))
      by false cb jk e false bd ki e2 ih = ground (arith, ih)
      by false cb jk e true bd false ki ih = ground (arith, ih)
      by true cb false jk false bd ki e2 ih = ground (arith, ih)
      by true cb false jk true bd false ki ih = ground (arith, ih)

  remove-reads :
      (b k : String) (s t : Entries V)
      → some (remove b k s) ≡ some t
      → (c j : String) → find c j t ≡ (if same b c && same k j then none else find c j s)
  remove-reads b k s t h c j =
      let e : remove b k s ≡ t = ground (arith, h) in
      sym (ap (λ x. find c j x) e) ∙ find-remove b k c j s

  pub memory-IsBbolt : IsBbolt memory
  memory-IsBbolt = record {
    get-put = put-reads;
    get_missing = λ b k s h. absurd cc;
    elem-keys = elem-keys_of;
    has-put = λ b k v s t h c. refl;
    get-delete = remove-reads;
    has-delete = λ b k s t h c. refl;
    get-create = λ b s t h c j. ap (λ x. find c j x) (sym (same_state s t h));
    has-create = λ b s t h c. ground arith;
    seek_sound = λ b p s. scan_sound b p s (keys_of b s);
    seek_complete = λ b p k v s found hit.
        scan_complete b p k v s (keys_of b s) (elem-keys_of b k s ∙ ap is_some found) found hit;
  }
    where
      same_state : (s t : Entries V) → some s ≡ some t → s ≡ t
      same_state s t h = ground (arith, h)
