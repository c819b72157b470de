-- ===== src/EventBus/Identity.antt =====
-- Subscription identity: ids are never shared, and a subscription that the bus still holds has an
-- open queue, so no event is sent on a closed channel.
use gapi.Prelude.{
  ℕ, ◌+◌, ◌≤◌, ◌<◌, ◌≡◌, refl, ◌∙◌, String, Bool, true, false, not, ◌&&◌, List, [], ◌∷◌, ◌++◌, none,
  some, leb, ◌==◌, arith, if◌then◌else◌, Bool-cases, inl, inr, ==_iff,
}
use gapi.Prelude.Text.{trim_prefix}
use gapi.Prelude.Maps.{SliceMap, get, put, delete}
use text.Mathlib.Text.{starts_with}
use gapi.EventBus.Delivery.{Event, Handler, Delivery, new_delivery, send, stop}
use gapi.EventBus.Bus.{
  SubEntry, EventBus, on_delivery, dispatch, full_key, on_entries, on_matching, add_entry, cut,
  first, put_or_delete,
}

module _ {ℓ} {T : Type ℓ} where
  -- How many entries have the id `i`, in a list and in a map.
  unfoldable pub held : ℕ → List (SubEntry T) → ℕ
  held i [] = 0
  held i (s ∷ ss) = (if s.id == i then 1 else 0) + held i ss

  unfoldable pub held_in : ℕ → SliceMap (SubEntry T) → ℕ
  unfolding held
  held_in i [] = 0
  held_in i ((k, ss) ∷ m) = held i ss + held_in i m

  -- The delivery of the id `i` is there, and its queue is open.
  unfoldable pub is_open : ℕ → List (Delivery T) → Bool
  is_open i [] = false
  is_open i (d ∷ ds) = if d.sub_id == i then not d.closed else is_open i ds

  -- No delivery has an id above `n`.
  unfoldable pub all_below : ℕ → List (Delivery T) → Bool
  all_below n [] = true
  all_below n (d ∷ ds) = leb d.sub_id n && all_below n ds

  -- The bus holds an id at most once, and only if its queue is open; ids are given in order.
  abbrev pub IsWellFormed : EventBus T → Type 0
  IsWellFormed b =
      (all_below b.next_sub_id b.deliveries ≡ true)
      × ((i : ℕ)
          → held_in i b.subs + held_in i b.prefix_subs ≤ (if is_open i b.deliveries then 1 else 0))

  pub held-append : (i : ℕ) (xs ys : List (SubEntry T)) → held i (xs ++ ys) ≡ held i xs + held i ys
  unfolding held
  held-append i [] ys = omega arith
  held-append i (s ∷ ss) ys = ground (arith, held-append i ss ys)

  pub held_in-put :
      (i : ℕ) (k : String) (v : List (SubEntry T)) (m : SliceMap (SubEntry T))
      → held_in i (put k v m) + held i (get k m) ≡ held_in i m + held i v
  unfolding held_in put get held
  held_in-put i k v [] = omega arith
  held_in-put i k v ((j, w) ∷ m) = ground (arith, held_in-put i k v m)

  held_in-delete :
      (i : ℕ) (k : String) (m : SliceMap (SubEntry T))
      → held_in i (delete k m) + held i (get k m) ≤ held_in i m
  unfolding held_in delete get held
  held_in-delete i k [] = omega arith
  held_in-delete i k ((j, w) ∷ m) = ground (arith, held_in-delete i k m)

  pub held_in-put_or_delete :
      (i : ℕ) (k : String) (v : List (SubEntry T)) (m : SliceMap (SubEntry T))
      → held_in i (put_or_delete k v m) + held i (get k m) ≤ held_in i m + held i v
  unfolding put_or_delete
  held_in-put_or_delete i k [] m = ground (arith, held_in-delete i k m)
  held_in-put_or_delete i k (s ∷ ss) m = ground (arith, held_in-put i k (s ∷ ss) m)

  pub held_in-add_entry :
      (i n : ℕ) (k : String) (h : Handler T) (m : SliceMap (SubEntry T))
      → held_in i (add_entry k n h m) ≡ held_in i m + (if n == i then 1 else 0)
  unfolding add_entry held
  held_in-add_entry i n k h m =
      let entry : SubEntry T = record { id = n; entry_fn = h } in
      ground
        (arith, held_in-put i k (get k m ++ entry ∷ []) m, held-append i (get k m) (entry ∷ []))

  -- Cutting out the first entry that passes a test takes its id away once.
  pub held-cut-first :
      (p : SubEntry T → Bool) (i : ℕ) (ss : List (SubEntry T))
      → held i (cut p ss) + (elim (first p ss) [ none ↦ 0 | some n ↦ if n == i then 1 else 0 ])
        ≡ held i ss
  unfolding held cut first
  held-cut-first p i [] = omega arith
  held-cut-first p i (s ∷ ss) = ground (arith, held-cut-first p i ss)

  pub is_open-stop :
      (i n : ℕ) (ds : List (Delivery T))
      → is_open i (on_delivery n stop ds) ≡ (is_open i ds && not (n == i))
  unfolding is_open on_delivery stop
  is_open-stop i n [] = refl
  is_open-stop i n (d ∷ ds) = ground (arith, is_open-stop i n ds)

  pub is_open-append_new :
      (i n m : ℕ) (h : Handler T) (ds : List (Delivery T))
      → all_below m ds ≡ true
      → m < n
      → is_open i (ds ++ new_delivery n h ∷ []) ≡ (if n == i then true else is_open i ds)
  unfolding is_open all_below new_delivery
  is_open-append_new i n m h [] below lt = refl
  is_open-append_new i n m h (d ∷ ds) below lt = ground (arith, is_open-append_new i n m h ds)

  -- A queue that is open has an id that was given.
  pub is_open_below :
      (i n : ℕ) (ds : List (Delivery T)) → all_below n ds ≡ true → is_open i ds ≡ true → i ≤ n
  unfolding is_open all_below
  is_open_below i n [] below h = cc
  is_open_below i n (d ∷ ds) below h = ground (arith, is_open_below i n ds)

  -- A change of deliveries that keeps their ids.
  abbrev pub KeepsId : ℕ → (Delivery T → Delivery T) → Type ℓ
  KeepsId n f = (d : Delivery T) → d.sub_id ≡ n → (f d).sub_id ≡ n

  pub all_below-on_delivery :
      (f : Delivery T → Delivery T) (n m : ℕ) (ds : List (Delivery T))
      → KeepsId n f
      → all_below m (on_delivery n f ds) ≡ all_below m ds
  unfolding all_below on_delivery
  all_below-on_delivery f n m [] keeps = refl
  all_below-on_delivery f n m (d ∷ ds) keeps =
      ground (arith, all_below-on_delivery f n m ds keeps, keeps d, ==_iff d.sub_id n)

  pub all_below-append_new :
      (m n : ℕ) (h : Handler T) (ds : List (Delivery T))
      → all_below m ds ≡ true
      → m < n
      → all_below n (ds ++ new_delivery n h ∷ []) ≡ true
  unfolding all_below new_delivery
  all_below-append_new m n h [] below lt = ground arith
  all_below-append_new m n h (d ∷ ds) below lt = ground (arith, all_below-append_new m n h ds)

  -- A change that keeps ids and closed queues.
  abbrev pub Keeps : (Delivery T → Delivery T) → Type ℓ
  Keeps f = (d : Delivery T) → ((f d).sub_id ≡ d.sub_id) × ((f d).closed ≡ d.closed)

  pub is_open-on_delivery :
      (f : Delivery T → Delivery T) (i n : ℕ) (ds : List (Delivery T))
      → Keeps f
      → is_open i (on_delivery n f ds) ≡ is_open i ds
  unfolding is_open on_delivery
  is_open-on_delivery f i n [] keeps = refl
  is_open-on_delivery f i n (d ∷ ds) keeps =
      ground (arith, is_open-on_delivery f i n ds keeps, (keeps d).0, (keeps d).1)

  pub send-Keeps : (e : Event T) → Keeps (send e)
  unfolding send
  send-Keeps e d = (ground arith, ground arith)

  -- The same, of a change made for each entry of a list, of a map, of the matching prefixes.
  on_entries-Keeps :
      (f : Delivery T → Delivery T) (i m : ℕ) (ss : List (SubEntry T)) (ds : List (Delivery T))
      → Keeps f
      → (is_open i (on_entries f ss ds) ≡ is_open i ds)
        × (all_below m (on_entries f ss ds) ≡ all_below m ds)
  unfolding on_entries
  on_entries-Keeps f i m [] ds keeps = (refl, refl)
  on_entries-Keeps f i m (s ∷ ss) ds keeps =
      let rest = on_entries-Keeps f i m ss (on_delivery s.id f ds) keeps in
      (
        rest.0 ∙ is_open-on_delivery f i s.id ds keeps,
        rest.1 ∙ all_below-on_delivery f s.id m ds (λ d e. (keeps d).0 ∙ e),
      )

  on_matching-Keeps :
      (f : Delivery T → Delivery T) (i m : ℕ) (k : String) (pm : SliceMap (SubEntry T))
      (ds : List (Delivery T))
      → Keeps f
      → (is_open i (on_matching f k pm ds) ≡ is_open i ds)
        × (all_below m (on_matching f k pm ds) ≡ all_below m ds)
  unfolding on_matching
  on_matching-Keeps f i m k [] ds keeps = (refl, refl)
  on_matching-Keeps f i m k ((key, ss) ∷ pm) ds keeps =
      elim (Bool-cases (starts_with k (trim_prefix key "__MATCH:"))) [
        | inl hit ↦ rw hit (
            let rest = on_matching-Keeps f i m k pm (on_entries f ss ds) keeps in
            let here = on_entries-Keeps f i m ss ds keeps in (rest.0 ∙ here.0, rest.1 ∙ here.1))
        | inr miss ↦ rw miss (on_matching-Keeps f i m k pm ds keeps)
      ]

  pub dispatch-Keeps :
      (e : Event T) (b : EventBus T) (i m : ℕ)
      → (is_open i (dispatch e b).deliveries ≡ is_open i b.deliveries)
        × (all_below m (dispatch e b).deliveries ≡ all_below m b.deliveries)
  unfolding dispatch
  dispatch-Keeps e b i m =
      let k = full_key e.scope e.namespace e.topic in
      let exact = on_entries-Keeps (send e) i m (get k b.subs) b.deliveries (send-Keeps e) in
      let prefixed =
        on_matching-Keeps (send e) i m k b.prefix_subs
          (on_entries (send e) (get k b.subs) b.deliveries) (send-Keeps e) in
      (prefixed.0 ∙ exact.0, prefixed.1 ∙ exact.1)
