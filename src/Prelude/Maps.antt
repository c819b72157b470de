-- ===== src/Prelude/Maps.antt =====
-- Go maps from strings to slices, as association lists; a missing key has the empty slice.
use mathlib.Core.Path.{◌≡◌, refl}
use mathlib.Core.List.{List, [], ◌∷◌}
use native.Mathlib.Omega.{arith}
use Prim.Native.String.{String}
use gapi.Prelude.Tests.{if◌then◌else◌}
use gapi.Prelude.Names.{same, same_refl, eq_of_same}

abbrev pub SliceMap {ℓ} : Type ℓ → Type ℓ
SliceMap A = List (String × List A)

module _ {ℓ} {A : Type ℓ} where
  -- `m[k]`
  unfoldable pub get : String → SliceMap A → List A
  get k [] = []
  get k ((j, v) ∷ m) = if same j k then v else get k m

  -- `m[k] = v`
  unfoldable pub put : String → List A → SliceMap A → SliceMap A
  put k v [] = (k, v) ∷ []
  put k v ((j, w) ∷ m) = if same j k then (j, v) ∷ m else (j, w) ∷ put k v m

  -- `delete(m, k)`
  unfoldable pub delete : String → SliceMap A → SliceMap A
  delete k [] = []
  delete k ((j, w) ∷ m) = if same j k then delete k m else (j, w) ∷ delete k m

  pub get-put :
      (k j : String) (v : List A) (m : SliceMap A)
      → get j (put k v m) ≡ (if same k j then v else get j m)
  unfolding get put
  get-put k j v [] = refl
  get-put k j v ((i, w) ∷ m) =
      ground (arith, get-put k j v m, eq_of_same i k, eq_of_same i j, eq_of_same k j, same_refl k)

  pub get-delete :
      (k j : String) (m : SliceMap A) → get j (delete k m) ≡ (if same k j then [] else get j m)
  unfolding get delete
  get-delete k j [] = ground arith
  get-delete k j ((i, w) ∷ m) =
      ground (arith, get-delete k j m, eq_of_same i k, eq_of_same i j, eq_of_same k j, same_refl k)
