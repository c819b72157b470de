-- ===== src/EventBus/Removal.antt =====
-- A removal by id takes away that subscription and no other.
use gapi.Prelude.{
  ℕ, ◌≤◌, ◌≡◌, refl, sym, ◌∙◌, ap, String, Bool, ◌&&◌, List, [], ◌∷◌, ltb, ◌==◌, same, arith,
  if◌then◌else◌, Bool-cases, inl, inr,
}
use gapi.Prelude.Maps.{SliceMap, get, get-put, get-delete}
use gapi.EventBus.Delivery.{Delivery, stop}
use gapi.EventBus.Bus.{
  SubEntry, EventBus, cut, first, put_or_delete, stop_first, remove_from, remove_sub_by_id,
}
use gapi.EventBus.Subscribe.{find}
use gapi.EventBus.Identity.{held, IsWellFormed}
use gapi.EventBus.Dispatch.{on_found, find-on_delivery, held-get}

module _ {ℓ} {T : Type ℓ} where
  abbrev pub has_id : ℕ → SubEntry T → Bool
  has_id i s = s.id == i

  -- The entries of every other id.
  unfoldable pub without : ℕ → List (SubEntry T) → List (SubEntry T)
  without i [] = []
  without i (s ∷ ss) = if has_id i s then without i ss else s ∷ without i ss

  without_none : (i : ℕ) (ss : List (SubEntry T)) → held i ss ≡ 0 → without i ss ≡ ss
  unfolding held without
  without_none i [] h = refl
  without_none i (s ∷ ss) h = elim (Bool-cases (has_id i s)) [
    | inl hit ↦ absurd (ground (arith, hit))
    | inr miss ↦ rw miss (ap (λ r. s ∷ r) (without_none i ss (ground (arith, miss))))
  ]

  cut-without : (i : ℕ) (ss : List (SubEntry T)) → held i ss ≤ 1 → cut (has_id i) ss ≡ without i ss
  unfolding held without cut
  cut-without i [] h = refl
  cut-without i (s ∷ ss) h = elim (Bool-cases (has_id i s)) [
    | inl hit ↦ rw hit (sym (without_none i ss (ground (arith, hit))))
    | inr miss ↦ rw miss (ap (λ r. s ∷ r) (cut-without i ss (ground (arith, miss))))
  ]

  get-put_or_delete :
      (k j : String) (v : List (SubEntry T)) (m : SliceMap (SubEntry T))
      → get j (put_or_delete k v m) ≡ (if same k j then v else get j m)
  unfolding put_or_delete
  get-put_or_delete k j [] m = get-delete k j m
  get-put_or_delete k j (s ∷ ss) m = get-put k j (s ∷ ss) m

  -- The delivery of the first entry that has the id is the one of that id.
  find-stop_first :
      (i j : ℕ) (ss : List (SubEntry T)) (ds : List (Delivery T))
      → find j (stop_first (first (has_id i) ss) ds)
        ≡ (if i == j && ltb 0 (held i ss) then on_found stop (find j ds) else find j ds)
  unfolding stop_first first held stop
  find-stop_first i j [] ds = ground arith
  find-stop_first i j (s ∷ ss) ds = elim (Bool-cases (has_id i s)) [
    | inl hit ↦ ground (arith, hit, find-on_delivery j s.id stop ds (λ d. refl))
    | inr miss ↦ ground (arith, miss, find-stop_first i j ss ds)
  ]

  -- In a well-formed bus, removing the subscription of an id from a key leaves under that key the
  -- entries of the other ids, in their order; it leaves every other key as it was; and it stops the
  -- delivery of that id, if it was held there, and no other.
  pub get-remove_sub_by_id :
      (k j : String) (i n : ℕ) (b : EventBus T)
      → IsWellFormed b
      → (get j (remove_sub_by_id k i b).subs
          ≡ (if same k j then without i (get k b.subs) else get j b.subs))
        × (find n (remove_sub_by_id k i b).deliveries ≡ (
            if i == n && ltb 0 (held i (get k b.subs))
            then on_found stop (find n b.deliveries)
            else find n b.deliveries))
  unfolding remove_sub_by_id remove_from
  get-remove_sub_by_id k j i n b (below, one) =
      let once_held : held i (get k b.subs) ≤ 1 = ground (arith, one i, held-get i k b.subs) in
      (
        get-put_or_delete k j (cut (has_id i) (get k b.subs)) b.subs
            ∙ ap (λ v. if same k j then v else get j b.subs)
                (cut-without i (get k b.subs) once_held),
        find-stop_first i n (get k b.subs) b.deliveries,
      )
