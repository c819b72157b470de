-- ===== src/EventBus/Joining.antt =====
-- Subscribing and unsubscribing keep the bus well formed.
use gapi.Prelude.{
  ℕ, ◌+◌, ◌%◌, ◌^◌, ◌≤◌, ◌<◌, ◌≡◌, refl, ◌∙◌, String, Bool, false, not, ◌&&◌, List, Option, none,
  some, ◌==◌, arith, if◌then◌else◌,
}
use gapi.Prelude.Maps.{get}
use gapi.EventBus.Delivery.{Handler, Delivery, stop}
use gapi.EventBus.Bus.{
  BusError, EventBus, SubEntry, add_prefix_sub, add_sub, cut, first, next_id, put_or_delete,
  remove_from, remove_prefix_from, stop_first,
}
use gapi.EventBus.Subscribe.{guarded}
use gapi.EventBus.Identity.{
  IsWellFormed, all_below, all_below-append_new, all_below-on_delivery, held, held-cut-first,
  held_in, held_in-add_entry, held_in-put_or_delete, is_open, is_open-append_new, is_open-stop,
  is_open_below,
}

-- `here` entries of an id in the map at hand and `there` in the other; `mine` under the key, of
-- which `left` stay.
held_after_removal :
    (i : ℕ) (o : Option ℕ) (here there now mine left : ℕ) (opened still : Bool)
    → here + there ≤ (if opened then 1 else 0)
    → left + (elim o [ none ↦ 0 | some n ↦ if n == i then 1 else 0 ]) ≡ mine
    → now + mine ≤ here + left
    → still ≡ (opened && not (elim o [ none ↦ false | some n ↦ n == i ]))
    → now + there ≤ (if still then 1 else 0)
held_after_removal i none here there now mine left opened still a c d e = ground arith
held_after_removal i (some n) here there now mine left opened still a c d e = ground arith

module _ {ℓ} {T : Type ℓ} where
  abbrev pub HasIds : EventBus T → Type 0
  HasIds b = b.next_sub_id + 1 < 2 ^ 64

  -- One more id at most.
  abbrev pub IsNext : EventBus T → EventBus T → Type 0
  IsNext b c = (IsWellFormed c) × (c.next_sub_id ≤ b.next_sub_id + 1)

  pub add_sub-IsNext :
      (k : String) (h : Handler T) (b : EventBus T)
      → HasIds b
      → IsWellFormed b
      → IsNext b (add_sub k h b)
  unfolding add_sub next_id
  add_sub-IsNext k h b room (below, one) =
      let n = b.next_sub_id in
      (
        (
          all_below-append_new n ((n + 1) % 2 ^ 64) h b.deliveries below (omega arith),
          λ i. ground (
            arith,
            one i,
            held_in-add_entry i ((n + 1) % 2 ^ 64) k h b.subs,
            is_open-append_new i ((n + 1) % 2 ^ 64) n h b.deliveries below (omega arith),
            is_open_below i n b.deliveries below,
          ),
        ),
        omega arith,
      )

  pub add_prefix_sub-IsNext :
      (k : String) (h : Handler T) (b : EventBus T)
      → HasIds b
      → IsWellFormed b
      → IsNext b (add_prefix_sub k h b)
  unfolding add_prefix_sub next_id
  add_prefix_sub-IsNext k h b room (below, one) =
      let n = b.next_sub_id in
      (
        (
          all_below-append_new n ((n + 1) % 2 ^ 64) h b.deliveries below (omega arith),
          λ i. ground (
            arith,
            one i,
            held_in-add_entry i ((n + 1) % 2 ^ 64) k h b.prefix_subs,
            is_open-append_new i ((n + 1) % 2 ^ 64) n h b.deliveries below (omega arith),
            is_open_below i n b.deliveries below,
          ),
        ),
        omega arith,
      )

  pub guarded-IsNext :
      (o : Option BusError) (b c : EventBus T)
      → IsWellFormed b
      → IsNext b c
      → IsNext b (guarded o b c).1
  unfolding guarded
  guarded-IsNext none b c wf next = next
  guarded-IsNext (some err) b c wf next = (wf, omega arith)

  -- Stopping the first match of a removal closes the queue of no other id.
  pub stop_first-keeps :
      (o : Option ℕ) (i m : ℕ) (ds : List (Delivery T))
      → (all_below m (stop_first o ds) ≡ all_below m ds)
        × (is_open i (stop_first o ds)
            ≡ (is_open i ds && not (elim o [ none ↦ false | some n ↦ n == i ])))
  unfolding stop_first stop
  stop_first-keeps none i m ds = (refl, ground arith)
  stop_first-keeps (some n) i m ds =
      (all_below-on_delivery stop n m ds (λ d e. e), is_open-stop i n ds)

  pub remove_from-IsNext :
      (p : SubEntry T → Bool) (k : String) (b : EventBus T)
      → IsWellFormed b
      → IsNext b (remove_from p k b)
  unfolding remove_from
  remove_from-IsNext p k b (below, one) =
      let ss = get k b.subs in
      (
        (
          (stop_first-keeps (first p ss) 0 b.next_sub_id b.deliveries).0 ∙ below,
          λ i.
              held_after_removal i (first p ss) (held_in i b.subs) (held_in i b.prefix_subs)
                (held_in i (put_or_delete k (cut p ss) b.subs)) (held i ss) (held i (cut p ss))
                (is_open i b.deliveries) (is_open i (stop_first (first p ss) b.deliveries)) (one i)
                (held-cut-first p i ss) (held_in-put_or_delete i k (cut p ss) b.subs)
                (stop_first-keeps (first p ss) i 0 b.deliveries).1,
        ),
        omega arith,
      )

  pub remove_prefix_from-IsNext :
      (p : SubEntry T → Bool) (k : String) (b : EventBus T)
      → IsWellFormed b
      → IsNext b (remove_prefix_from p k b)
  unfolding remove_prefix_from
  remove_prefix_from-IsNext p k b (below, one) =
      let ss = get k b.prefix_subs in
      (
        (
          (stop_first-keeps (first p ss) 0 b.next_sub_id b.deliveries).0 ∙ below,
          λ i. ground (
            arith,
            held_after_removal i (first p ss) (held_in i b.prefix_subs) (held_in i b.subs)
                (held_in i (put_or_delete k (cut p ss) b.prefix_subs)) (held i ss)
                (held i (cut p ss)) (is_open i b.deliveries)
                (is_open i (stop_first (first p ss) b.deliveries)) (ground (arith, one i))
                (held-cut-first p i ss) (held_in-put_or_delete i k (cut p ss) b.prefix_subs)
                (stop_first-keeps (first p ss) i 0 b.deliveries).1,
          ),
        ),
        omega arith,
      )
