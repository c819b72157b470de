-- ===== src/Addresses/Complete.antt =====
-- No daemon that runs and has published its address is missed: core/config/control_addr.go.
use gapi.Prelude.{
  ℕ, ◌≡◌, refl, sym, ap, ◌∙◌, String, Bool, true, false, not, ◌||◌, ◌⊎◌, inl, inr, List, [], ◌∷◌,
  ◌++◌, Option, none, some, ◌==◌, ==_iff, ltb, arith, elem, elem_lem, count-sort_strings,
  if◌then◌else◌, same, eq_of_same, sort_strings,
}
use mathlib.Core.Path.{subst}
use gapi.Prelude.Text.{trim_space}
use gapi.Addresses.{
  Killed, Contents, gone, unreadable, holds, Entry, Listing, absent, denied, entries, Tier,
  ControlAddr, stem, of_stem, names, contents_of, seen, join, pid_alive, take, take_live,
  then_names, live_in, of_listing, live_from, live_control_addrs, found, answer, read_control_addr,
}

seen-append :
    (p : ℕ) (out : List ControlAddr) (c : ControlAddr)
    → seen p (out ++ c ∷ []) ≡ (seen p out || c.pid == p)
unfolding seen
seen-append p [] c = ground arith
seen-append p (d ∷ out) c = ground (arith, seen-append p out c)

abbrev pub InTiers : Tier → List Tier → Type 0
InTiers t [] = ⊥
InTiers t (u ∷ ts) = (u ≡ t) ⊎ InTiers t ts

module _ (running : ℕ → Killed) (p : ℕ) where
  abbrev IsSeenIn : Option (List ControlAddr) → Type 0
  IsSeenIn x = (out : List ControlAddr) → x ≡ some out → seen p out ≡ true

  kept-IsSeenIn : (out : List ControlAddr) → seen p out ≡ true → IsSeenIn (some out)
  kept-IsSeenIn out h o e = subst (λ l. seen p l ≡ true) (ground arith) h

  failed-IsSeenIn : IsSeenIn none
  failed-IsSeenIn o e = absurd cc

  then_names-IsSeenIn :
      (x : Option (List ControlAddr)) (rest : List ControlAddr → Option (List ControlAddr))
      → IsSeenIn x
      → ((o : List ControlAddr) → seen p o ≡ true → IsSeenIn (rest o))
      → IsSeenIn (then_names running x rest)
  then_names-IsSeenIn none rest h k = failed-IsSeenIn
  then_names-IsSeenIn (some l) rest h k = k l (h l refl)

  -- Where what comes before does not matter.
  later-IsSeenIn :
      (x : Option (List ControlAddr)) (rest : List ControlAddr → Option (List ControlAddr))
      → ((o : List ControlAddr) → IsSeenIn (rest o))
      → IsSeenIn (then_names running x rest)
  later-IsSeenIn none rest k = failed-IsSeenIn
  later-IsSeenIn (some l) rest k = k l

  either-IsSeenIn :
      (b : Bool) (x y : Option (List ControlAddr))
      → (b ≡ true → IsSeenIn x)
      → (b ≡ false → IsSeenIn y)
      → IsSeenIn (if b then x else y)
  either-IsSeenIn true x y h k = h refl
  either-IsSeenIn false x y h k = k refl

  take-IsSeenIn :
      (path : String) (q : ℕ) (c : Contents) (out : List ControlAddr)
      → seen p out ≡ true
      → IsSeenIn (take running path q c out)
  take-IsSeenIn path q gone out h = kept-IsSeenIn out h
  take-IsSeenIn path q unreadable out h = failed-IsSeenIn
  take-IsSeenIn path q (holds raw) out h =
      let c : ControlAddr = record { addr = trim_space raw; pid = q; from = path } in
      either-IsSeenIn (same (trim_space raw) "") (some out) (some (out ++ c ∷ []))
        (λ e. kept-IsSeenIn out h)
        (λ e. kept-IsSeenIn (out ++ c ∷ []) (ground (arith, seen-append p out c, h)))

  take_live-IsSeenIn :
      (path : String) (q : Option ℕ) (c : Contents) (out : List ControlAddr)
      → seen p out ≡ true
      → IsSeenIn (take_live running path q c out)
  take_live-IsSeenIn path none c out h = kept-IsSeenIn out h
  take_live-IsSeenIn path (some q) c out h =
      either-IsSeenIn (seen q out || not (pid_alive running q)) (some out)
        (take running path q c out) (λ e. kept-IsSeenIn out h) (λ e. take-IsSeenIn path q c out h)

  live_in-IsSeenIn :
      (dir : String) (es : List Entry) (ns : List String) (out : List ControlAddr)
      → seen p out ≡ true
      → IsSeenIn (live_in running dir es ns out)
  unfolding live_in
  live_in-IsSeenIn dir es [] out h = kept-IsSeenIn out h
  live_in-IsSeenIn dir es (name ∷ ns) out h =
      then_names-IsSeenIn
        (take_live running (join dir name) (of_stem (stem name)) (contents_of name es) out)
        (λ l. live_in running dir es ns l)
        (take_live-IsSeenIn (join dir name) (of_stem (stem name)) (contents_of name es) out h)
        (λ l g. live_in-IsSeenIn dir es ns l g)

  live_from-IsSeenIn :
      (tiers : List Tier) (out : List ControlAddr)
      → seen p out ≡ true
      → IsSeenIn (live_from running tiers out)
  unfolding live_from
  live_from-IsSeenIn [] out h = kept-IsSeenIn out h
  live_from-IsSeenIn (t ∷ ts) out h =
      then_names-IsSeenIn (of_listing running t.dir t.listing out) (λ l. live_from running ts l)
        (listed t.listing) (λ l g. live_from-IsSeenIn ts l g)
    where
      listed : (l : Listing) → IsSeenIn (of_listing running t.dir l out)
      listed absent = kept-IsSeenIn out h
      listed denied = failed-IsSeenIn
      listed (entries es) = live_in-IsSeenIn t.dir es (sort_strings (names es)) out h

  -- The file of a daemon that runs, read with an address in it.
  module _ (name raw : String) (es : List Entry) (of_p : of_stem (stem name) ≡ some p)
      (alive : pid_alive running p ≡ true) (read : contents_of name es ≡ holds raw)
      (filled : same (trim_space raw) "" ≡ false) where
    found-IsSeenIn :
        (path : String) (out : List ControlAddr)
        → IsSeenIn (take_live running path (of_stem (stem name)) (contents_of name es) out)
    found-IsSeenIn path out =
        let c : ControlAddr = record { addr = trim_space raw; pid = p; from = path } in
        subst (λ q. IsSeenIn (take_live running path q (contents_of name es) out)) (sym of_p)
          (subst (λ d. IsSeenIn (take_live running path (some p) d out)) (sym read)
            (either-IsSeenIn (seen p out || not (pid_alive running p)) (some out)
              (take running path p (holds raw) out)
              (λ e. kept-IsSeenIn out (ground (arith, e, alive)))
              (λ e.
                either-IsSeenIn (same (trim_space raw) "") (some out) (some (out ++ c ∷ []))
                  (λ b. absurd (ground (arith, b, filled)))
                  (λ b.
                    kept-IsSeenIn (out ++ c ∷ [])
                      (ground (arith, seen-append p out c, (==_iff p p).1 refl))))))

    names-IsSeenIn :
        (dir : String) (ns : List String) (out : List ControlAddr)
        → elem name ns ≡ true
        → IsSeenIn (live_in running dir es ns out)
    unfolding live_in elem
    names-IsSeenIn dir [] out h = absurd cc
    names-IsSeenIn dir (n ∷ ns) out h = by (same n name) refl (λ g l. names-IsSeenIn dir ns l g)
      where
        first : String → Option (List ControlAddr)
        first m = take_live running (join dir m) (of_stem (stem m)) (contents_of m es) out

        by :
            (b : Bool)
            → same n name ≡ b
            → (elem name ns ≡ true
                → (l : List ControlAddr) → IsSeenIn (live_in running dir es ns l))
            → IsSeenIn (then_names running (first n) (λ l. live_in running dir es ns l))
        by true e rest =
            then_names-IsSeenIn (first n) (λ l. live_in running dir es ns l)
              (subst (λ m. IsSeenIn (first m)) (sym (eq_of_same n name e))
                (found-IsSeenIn (join dir name) out))
              (λ l g. live_in-IsSeenIn dir es ns l g)
        by false e rest =
            later-IsSeenIn (first n) (λ l. live_in running dir es ns l)
              (rest (ground (arith, e, h)))

    listing-IsSeenIn :
        (dir : String) (l : Listing) (out : List ControlAddr)
        → l ≡ entries es
        → elem name (names es) ≡ true
        → IsSeenIn (of_listing running dir l out)
    listing-IsSeenIn dir l out e h =
        subst (λ k. IsSeenIn (of_listing running dir k out)) (sym e)
          (names-IsSeenIn dir (sort_strings (names es)) out (
            elem_lem name (sort_strings (names es))
            ∙ ap (ltb 0) (count-sort_strings name (names es))
            ∙ sym (elem_lem name (names es))
            ∙ h))

    tiers-IsSeenIn :
        (t : Tier) (ts : List Tier) (out : List ControlAddr)
        → InTiers t ts
        → t.listing ≡ entries es
        → elem name (names es) ≡ true
        → IsSeenIn (live_from running ts out)
    unfolding live_from
    tiers-IsSeenIn t [] out i e h = absurd i
    tiers-IsSeenIn t (u ∷ ts) out (inl same_tier) e h =
        then_names-IsSeenIn (of_listing running u.dir u.listing out) (λ l. live_from running ts l)
          (listing-IsSeenIn u.dir u.listing out (ap (λ (v : Tier). v.listing) same_tier ∙ e) h)
          (λ l g. live_from-IsSeenIn ts l g)
    tiers-IsSeenIn t (u ∷ ts) out (inr i) e h =
        later-IsSeenIn (of_listing running u.dir u.listing out) (λ l. live_from running ts l)
          (λ l. tiers-IsSeenIn t ts l i e h)

    -- If LiveControlAddrs answers without an error, it names each process that runs and has a file
    -- with an address, under its pid, in one of the directories.
    pub seen-live_control_addrs :
        (t : Tier) (tiers : List Tier) (out : List ControlAddr)
        → InTiers t tiers
        → t.listing ≡ entries es
        → elem name (names es) ≡ true
        → live_control_addrs running tiers ≡ some out
        → seen p out ≡ true
    unfolding live_control_addrs
    seen-live_control_addrs t tiers out i e h live = tiers-IsSeenIn t tiers [] i e h out live

    -- If ReadControlAddr answers with an address, while a process runs that has a file with an address
    -- in one of the directories, the answer is that process's, and it is the only one published.
    pub read_control_addr-found :
        (t : Tier) (tiers : List Tier) (addr from : String)
        → InTiers t tiers
        → t.listing ≡ entries es
        → elem name (names es) ≡ true
        → read_control_addr running tiers ≡ found addr from
        → live_control_addrs running tiers
          ≡ some (record { addr = addr; pid = p; from = from } ∷ [])
    unfolding read_control_addr seen
    read_control_addr-found t tiers addr from i e h answered =
        by (live_control_addrs running tiers) answered
          (λ out l. seen-live_control_addrs t tiers out i e h l)
      where
        by :
            (x : Option (List ControlAddr))
            → answer x ≡ found addr from
            → IsSeenIn x
            → x ≡ some (record { addr = addr; pid = p; from = from } ∷ [])
        by none a k = absurd cc
        by (some []) a k = absurd cc
        by (some (c ∷ [])) a k = ground (arith, a, k (c ∷ []) refl)
        by (some (c ∷ d ∷ cs)) a k = absurd cc
