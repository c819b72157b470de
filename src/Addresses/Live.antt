-- ===== src/Addresses/Live.antt =====
-- The addresses that core/config/control_addr.go finds: one of each daemon that runs and has published
-- one.
use gapi.Prelude.{
  ℕ, ◌+◌, ==_iff, ◌≤◌, ◌≡◌, refl, String, Bool, true, false, not, ◌&&◌, ◌||◌, List, [], ◌∷◌, ◌++◌,
  Option, none, some, ◌==◌, ltb, arith, if◌then◌else◌, same, sort_strings,
}
use mathlib.Core.Path.{subst}
use gapi.Prelude.Text.{trim_space}
use gapi.Addresses.{
  Killed, Contents, gone, unreadable, holds, Entry, Listing, absent, denied, entries, Tier,
  ControlAddr, stem, of_stem, names, contents_of, seen, join, pid_alive, take, take_live,
  then_names, live_in, of_listing, live_from, live_control_addrs,
}

-- How many addresses the pid has.
unfoldable pub published : ℕ → List ControlAddr → ℕ
published pid [] = 0
published pid (c ∷ cs) = (if c.pid == pid then 1 else 0) + published pid cs

pub published-append :
    (p : ℕ) (out : List ControlAddr) (c : ControlAddr)
    → published p (out ++ c ∷ []) ≡ published p out + (if c.pid == p then 1 else 0)
unfolding published
published-append p [] c = ground arith
published-append p (d ∷ out) c = ground (arith, published-append p out c)

seen_lem : (p : ℕ) (out : List ControlAddr) → seen p out ≡ ltb 0 (published p out)
unfolding seen published
seen_lem p [] = refl
seen_lem p (c ∷ out) = ground (arith, seen_lem p out)

module _ (running : ℕ → Killed) (p : ℕ) where
  -- One address at most, and none of a process that is gone.
  abbrev IsOnce : List ControlAddr → Type 0
  IsOnce out =
      (published p out ≤ 1) × ((ltb 0 (published p out) && not (pid_alive running p)) ≡ false)

  abbrev IsOnceIf : Option (List ControlAddr) → Type 0
  IsOnceIf x = (out : List ControlAddr) → x ≡ some out → IsOnce out

  kept-IsOnce : (out : List ControlAddr) → IsOnce out → IsOnceIf (some out)
  kept-IsOnce out h o e = subst IsOnce (ground arith) h

  failed-IsOnce : IsOnceIf none
  failed-IsOnce o e = absurd cc

  add-IsOnce :
      (c : ControlAddr) (out : List ControlAddr)
      → (seen c.pid out || not (pid_alive running c.pid)) ≡ false
      → IsOnce out
      → IsOnce (out ++ c ∷ [])
  add-IsOnce c out free (few, alive) = by (c.pid == p) refl
    where
      by : (b : Bool) → (c.pid == p) ≡ b → IsOnce (out ++ c ∷ [])
      by true e =
          let here : (seen p out || not (pid_alive running p)) ≡ false =
            subst (λ q. (seen q out || not (pid_alive running q)) ≡ false) ((==_iff c.pid p).0 e)
              free in
          (
            ground (arith, published-append p out c, seen_lem p out, here, e),
            ground (arith, published-append p out c, seen_lem p out, here, e),
          )
      by false e = (
        ground (arith, published-append p out c, few, e),
        ground (arith, published-append p out c, alive, e),
      )

  take_live-IsOnce :
      (path : String) (q : Option ℕ) (c : Contents) (out : List ControlAddr)
      → IsOnce out
      → IsOnceIf (take_live running path q c out)
  take_live-IsOnce path none c out h = kept-IsOnce out h
  take_live-IsOnce path (some q) c out h = by (seen q out || not (pid_alive running q)) refl
    where
      add :
          (raw : String) (blank : Bool)
          → (seen q out || not (pid_alive running q)) ≡ false
          → IsOnceIf (
              if blank
              then some out
              else some (out ++ record { addr = trim_space raw; pid = q; from = path } ∷ []))
      add raw true f o e = kept-IsOnce out h o e
      add raw false f o e =
          subst IsOnce (ground arith)
            (add-IsOnce (record { addr = trim_space raw; pid = q; from = path }) out f h)

      put :
          (d : Contents)
          → (seen q out || not (pid_alive running q)) ≡ false
          → IsOnceIf (take running path q d out)
      put gone f o e = kept-IsOnce out h o e
      put unreadable f o e = absurd cc
      put (holds raw) f o e = add raw (same (trim_space raw) "") f o e

      by :
          (b : Bool)
          → (seen q out || not (pid_alive running q)) ≡ b
          → IsOnceIf (if b then some out else take running path q c out)
      by true f o e = kept-IsOnce out h o e
      by false f o e = put c f o e

  then_names-IsOnce :
      (x : Option (List ControlAddr)) (rest : List ControlAddr → Option (List ControlAddr))
      → IsOnceIf x
      → ((o : List ControlAddr) → IsOnce o → IsOnceIf (rest o))
      → IsOnceIf (then_names running x rest)
  then_names-IsOnce none rest h k o e = absurd cc
  then_names-IsOnce (some l) rest h k o e = k l (h l refl) o e

  live_in-IsOnce :
      (dir : String) (es : List Entry) (ns : List String) (out : List ControlAddr)
      → IsOnce out
      → IsOnceIf (live_in running dir es ns out)
  unfolding live_in
  live_in-IsOnce dir es [] out h = kept-IsOnce out h
  live_in-IsOnce dir es (name ∷ ns) out h =
      then_names-IsOnce
        (take_live running (join dir name) (of_stem (stem name)) (contents_of name es) out)
        (λ l. live_in running dir es ns l)
        (take_live-IsOnce (join dir name) (of_stem (stem name)) (contents_of name es) out h)
        (λ l g. live_in-IsOnce dir es ns l g)

  of_listing-IsOnce :
      (dir : String) (l : Listing) (out : List ControlAddr)
      → IsOnce out
      → IsOnceIf (of_listing running dir l out)
  of_listing-IsOnce dir absent out h = kept-IsOnce out h
  of_listing-IsOnce dir denied out h = failed-IsOnce
  of_listing-IsOnce dir (entries es) out h = live_in-IsOnce dir es (sort_strings (names es)) out h

  live_from-IsOnce :
      (tiers : List Tier) (out : List ControlAddr)
      → IsOnce out
      → IsOnceIf (live_from running tiers out)
  unfolding live_from
  live_from-IsOnce [] out h = kept-IsOnce out h
  live_from-IsOnce (t ∷ ts) out h =
      then_names-IsOnce (of_listing running t.dir t.listing out) (λ l. live_from running ts l)
        (of_listing-IsOnce t.dir t.listing out h) (λ l g. live_from-IsOnce ts l g)

  -- However the directories are listed: of every process LiveControlAddrs names one address at most,
  -- and none of a process that does not run.
  pub published-live_control_addrs :
      (tiers : List Tier) (out : List ControlAddr)
      → live_control_addrs running tiers ≡ some out
      → (published p out ≤ 1) × ((ltb 0 (published p out) && not (pid_alive running p)) ≡ false)
  unfolding live_control_addrs published
  published-live_control_addrs tiers out e = live_from-IsOnce tiers [] (omega arith, refl) out e
