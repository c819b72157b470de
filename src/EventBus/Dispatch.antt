-- ===== src/EventBus/Dispatch.antt =====
-- Who gets an event: each subscription to its key, and each to a prefix of it, once; nobody else.
use text.Mathlib.Text.{starts_with}
use text.Mathlib.TextEquality.{starts_with_iff}
use text.Mathlib.TextPositions.{
  starts_with-append, starts_with_of_prefix, slice-append_right, len-append,
}
use text.Mathlib.TextLemmas.{append_assoc, append_cancel_left}
use Prim.Native.String.{◌++◌ as str_append, slice}
use gapi.Prelude.{
  Bool-eq, ℕ, suc, zero, ◌+◌, ◌≤◌, ◌≡◌, refl, sym, ◌∙◌, ap, String, Bool, true, false, List, [],
  ◌∷◌, Option, none, some, ltb, ◌==◌, arith, if◌then◌else◌, same,
}
use gapi.Prelude.Text.{trim_prefix}
use gapi.Prelude.Maps.{SliceMap, get}
use gapi.EventBus.Delivery.{Event, Delivery, send}
use gapi.EventBus.Bus.{
  SubEntry, EventBus, on_delivery, on_entries, on_matching, dispatch, full_key, match_key,
}
use gapi.EventBus.Subscribe.{find}
use gapi.EventBus.Identity.{held, held_in, IsWellFormed, Keeps, send-Keeps}

module _ {ℓ} {T : Type ℓ} where
  -- How many entries of the id `i` there are under the prefixes that the key has.
  unfoldable pub held_matching : ℕ → String → SliceMap (SubEntry T) → ℕ
  unfolding held
  held_matching i k [] = 0
  held_matching i k ((key, ss) ∷ m) =
      (if starts_with k (trim_prefix key "__MATCH:") then held i ss else 0) + held_matching i k m

  -- The subscription `i` is to the event's key, or to a prefix of it.
  unfoldable pub is_addressed : ℕ → Event T → EventBus T → Bool
  unfolding held held_matching
  is_addressed i e b =
      let k = full_key e.scope e.namespace e.topic in
      ltb 0 (held i (get k b.subs) + held_matching i k b.prefix_subs)

  abbrev pub on_found : (Delivery T → Delivery T) → Option (Delivery T) → Option (Delivery T)
  on_found f none = none
  on_found f (some d) = some (f d)

  times : ℕ → (Delivery T → Delivery T) → Option (Delivery T) → Option (Delivery T)
  times zero f o = o
  times (suc n) f o = times n f (on_found f o)

  times_add :
      (n m : ℕ) (f : Delivery T → Delivery T) (o : Option (Delivery T))
      → times m f (times n f o) ≡ times (n + m) f o
  unfolding times
  times_add zero m f o =
      let same_count : m ≡ zero + m = omega arith in ap (λ j. times j f o) same_count
  times_add (suc n) m f o =
      let same_count : suc (n + m) ≡ suc n + m = omega arith in
      times_add n m f (on_found f o) ∙ ap (λ j. times j f o) same_count

  pub find-on_delivery :
      (i n : ℕ) (f : Delivery T → Delivery T) (ds : List (Delivery T))
      → ((d : Delivery T) → (f d).sub_id ≡ d.sub_id)
      → find i (on_delivery n f ds) ≡ (if n == i then on_found f (find i ds) else find i ds)
  unfolding find on_delivery
  find-on_delivery i n f [] keeps = ground arith
  find-on_delivery i n f (d ∷ ds) keeps = ground (arith, find-on_delivery i n f ds keeps, keeps d)

  find-on_entries :
      (i : ℕ) (f : Delivery T → Delivery T) (ss : List (SubEntry T)) (ds : List (Delivery T))
      → Keeps f
      → find i (on_entries f ss ds) ≡ times (held i ss) f (find i ds)
  unfolding on_entries held times
  find-on_entries i f [] ds keeps = refl
  find-on_entries i f (s ∷ ss) ds keeps =
      find-on_entries i f ss (on_delivery s.id f ds) keeps
      ∙ ap (λ o. times (held i ss) f o) (find-on_delivery i s.id f ds (λ d. (keeps d).0))
      ∙ once_more (s.id == i)
    where
      once_more :
          (hit : Bool)
          → times (held i ss) f (if hit then on_found f (find i ds) else find i ds)
            ≡ times ((if hit then 1 else 0) + held i ss) f (find i ds)
      once_more true = times_add 1 (held i ss) f (find i ds)
      once_more false = times_add 0 (held i ss) f (find i ds)

  find-on_matching :
      (i : ℕ) (f : Delivery T → Delivery T) (k : String) (m : SliceMap (SubEntry T))
      (ds : List (Delivery T))
      → Keeps f
      → find i (on_matching f k m ds) ≡ times (held_matching i k m) f (find i ds)
  unfolding on_matching held_matching times
  find-on_matching i f k [] ds keeps = refl
  find-on_matching i f k ((key, ss) ∷ m) ds keeps =
      by (starts_with k (trim_prefix key "__MATCH:")) (λ ds'. find-on_matching i f k m ds' keeps)
    where
      by :
          (hit : Bool)
          → ((ds' : List (Delivery T))
              → find i (on_matching f k m ds') ≡ times (held_matching i k m) f (find i ds'))
          → find i (on_matching f k m (if hit then on_entries f ss ds else ds))
            ≡ times ((if hit then held i ss else 0) + held_matching i k m) f (find i ds)
      by true rest =
          rest (on_entries f ss ds)
          ∙ ap (λ o. times (held_matching i k m) f o) (find-on_entries i f ss ds keeps)
          ∙ times_add (held i ss) (held_matching i k m) f (find i ds)
      by false rest = rest ds ∙ times_add 0 (held_matching i k m) f (find i ds)

  pub held-get : (i : ℕ) (k : String) (m : SliceMap (SubEntry T)) → held i (get k m) ≤ held_in i m
  unfolding held held_in get
  held-get i k [] = omega arith
  held-get i k ((j, ss) ∷ m) = ground (arith, held-get i k m)

  held_matching-le :
      (i : ℕ) (k : String) (m : SliceMap (SubEntry T)) → held_matching i k m ≤ held_in i m
  unfolding held_matching held_in
  held_matching-le i k [] = omega arith
  held_matching-le i k ((j, ss) ∷ m) = ground (arith, held_matching-le i k m)

  at_most_once :
      (n : ℕ) (f : Delivery T → Delivery T) (o : Option (Delivery T))
      → n ≤ 1
      → times n f o ≡ (if ltb 0 n then on_found f o else o)
  unfolding times
  at_most_once zero f o h = refl
  at_most_once (suc n) f o h =
      let none_left : n ≡ 0 = omega arith in
      ap (λ j. times j f (on_found f o)) none_left ∙ ground arith

  -- In a well-formed bus, dispatching an event sends it once to each subscription that is to the
  -- event's key or to a prefix of it, and leaves the queue of every other subscription as it was.
  pub find-dispatch :
      (e : Event T) (b : EventBus T) (i : ℕ)
      → IsWellFormed b
      → find i (dispatch e b).deliveries ≡ (
          if is_addressed i e b
          then on_found (send e) (find i b.deliveries)
          else find i b.deliveries)
  unfolding dispatch is_addressed
  find-dispatch e b i (below, one) =
      let k = full_key e.scope e.namespace e.topic in
      let exact = held i (get k b.subs) in
      let prefixed = held_matching i k b.prefix_subs in
      find-on_matching i (send e) k b.prefix_subs (on_entries (send e) (get k b.subs) b.deliveries)
        (send-Keeps e)
      ∙ ap (λ o. times prefixed (send e) o)
          (find-on_entries i (send e) (get k b.subs) b.deliveries (send-Keeps e))
      ∙ times_add exact prefixed (send e) (find i b.deliveries)
      ∙ at_most_once (exact + prefixed) (send e) (find i b.deliveries)
          (ground (arith, one i, held-get i k b.subs, held_matching-le i k b.prefix_subs))

trim_prefix-match_key : (k : String) → trim_prefix (match_key k) "__MATCH:" ≡ k
unfolding trim_prefix match_key
trim_prefix-match_key k = rw (starts_with-append "__MATCH:" k) (
    ap (λ n. slice (str_append "__MATCH:" k) 8 n) (len-append "__MATCH:" k)
    ∙ slice-append_right "__MATCH:" k)

-- A common beginning does not matter.
starts_with-append_both :
    (s t p : String) → starts_with (str_append s t) (str_append s p) ≡ starts_with t p
starts_with-append_both s t p = Bool-eq _ _ cancel extend
  where
    cancel : starts_with (str_append s t) (str_append s p) ≡ true → starts_with t p ≡ true
    cancel h =
        let (u, e) = (starts_with_iff (str_append s t) (str_append s p)).0 h in
        starts_with_of_prefix p t
          (u, append_cancel_left s (str_append p u) t (sym (append_assoc s p u) ∙ e))

    extend : starts_with t p ≡ true → starts_with (str_append s t) (str_append s p) ≡ true
    extend h =
        let (u, e) = (starts_with_iff t p).0 h in
        starts_with_of_prefix (str_append s p) (str_append s t)
          (u, append_assoc s p u ∙ ap (λ v. str_append s v) e)

-- A subscription to a prefix gets the events of its scope and namespace whose topic has the prefix,
-- and of them no others: the test of `dispatch`, on the key that `SubscribePrefix` made.
pub starts_with-full_key :
    (scope namespace topic prefix : String)
    → starts_with
        (full_key scope namespace topic)
        (trim_prefix (match_key (full_key scope namespace prefix)) "__MATCH:")
      ≡ starts_with topic prefix
unfolding full_key
starts_with-full_key scope namespace topic prefix =
    let ns : String = if same namespace "" then "default" else namespace in
    ap (λ k. starts_with (full_key scope namespace topic) k)
      (trim_prefix-match_key (full_key scope namespace prefix))
    ∙ starts_with-append_both scope _ _
    ∙ starts_with-append_both "/" _ _
    ∙ starts_with-append_both ns _ _
    ∙ starts_with-append_both "/" topic prefix
