-- ===== src/Registry/Dependencies.antt =====
-- What a registration is worth to a reader: lookups, dependencies, and the integrity check.
use gapi.Prelude.{
  ℕ, ◌≡◌, refl, ap, ◌∙◌, String, Bool, true, false, ◌&&◌, ◌||◌, List, [], ◌∷◌, ◌++◌, Option, none,
  some, same, same_refl, eq_of_same, elem, elem-append, elem_lem, count, count-append, arith,
  if◌then◌else◌, Option-cases, inl, inr, ◌⊎◌,
}
use Prim.Native.String.{◌++◌ as str_append}
use gapi.Prelude.Text.{is_blank}
use gapi.Store.Graph.{Edge}
use gapi.Store.Graph.Entries.{leads_to}
use gapi.Store.Interface.{HybridStore, IsHybridStore}
use gapi.Store.Keys.{IsPlain}
use gapi.Registry.Register.{
  AgentDescription, Failure, Files, invalid_agent, agents_bucket, edge_kind_requires,
  edge_kind_wants, edge_to, check_integrity, write_checked, register,
}
use gapi.Registry.Queries.{lookup, collect, collect_both, get_dependencies}
use gapi.Registry.Writes.{
  links, declares, AllPlain, IsPlain-requires, IsPlain-wants, write_agent_lem, register-write_agent,
}

-- By what `a` declares, `id` depends on `d`.
unfoldable pub depends_on : AgentDescription → String → String → Bool
depends_on a id d =
    (same a.id id && (elem d a.requires || elem d a.wants))
    || (same a.id d && (elem id a.wanted_by || elem id a.required_by))

links-out :
    (f k : String) (xs : List String) (id kind d : String)
    → links (edge_to f k) xs id kind d ≡ (same f id && same k kind && elem d xs)
unfolding links elem
links-out f k [] id kind d = ground arith
links-out f k (x ∷ xs) id kind d = ground (arith, links-out f k xs id kind d)

links-in :
    (t k : String) (xs : List String) (id kind d : String)
    → links (λ x. edge_to x k t) xs id kind d ≡ (same t d && same k kind && elem id xs)
unfolding links elem
links-in t k [] id kind d = ground arith
links-in t k (x ∷ xs) id kind d = ground (arith, links-in t k xs id kind d)

declares-depends_on :
    (a : AgentDescription) (id d : String)
    → (declares a id edge_kind_requires d || declares a id edge_kind_wants d) ≡ depends_on a id d
unfolding declares depends_on same
declares-depends_on a id d = ground (
  arith,
  links-out a.id edge_kind_requires a.requires id edge_kind_requires d,
  links-out a.id edge_kind_requires a.requires id edge_kind_wants d,
  links-out a.id edge_kind_wants a.wants id edge_kind_requires d,
  links-out a.id edge_kind_wants a.wants id edge_kind_wants d,
  links-in a.id edge_kind_requires a.required_by id edge_kind_requires d,
  links-in a.id edge_kind_requires a.required_by id edge_kind_wants d,
  links-in a.id edge_kind_wants a.wanted_by id edge_kind_requires d,
  links-in a.id edge_kind_wants a.wanted_by id edge_kind_wants d,
)

-- Each target once, behind what was there.
count-collect :
    (d : String) (es : List Edge) (all : List String)
    → count d (collect es all)
      ≡ (if elem d all then count d all else if leads_to d es then 1 else 0)
unfolding collect leads_to count
count-collect d [] all = ground (arith, elem_lem d all)
count-collect d (e ∷ es) all = by (elem e.to all) refl (λ xs. count-collect d es xs)
  where
    by :
        (known : Bool)
        → elem e.to all ≡ known
        → ((xs : List String)
            → count d (collect es xs)
              ≡ (if elem d xs then count d xs else if leads_to d es then 1 else 0))
        → count d (collect es (if known then all else all ++ e.to ∷ []))
          ≡ (if elem d all then count d all else if same e.to d || leads_to d es then 1 else 0)
    by true known rest = rest all ∙ ground (arith, known, eq_of_same e.to d)
    by false new rest =
        rest (all ++ e.to ∷ [])
        ∙ ground (
          arith,
          new,
          eq_of_same e.to d,
          elem-append d all (e.to ∷ []),
          count-append d all (e.to ∷ []),
          elem_lem d all,
          elem_lem d (e.to ∷ []),
        )

-- The file beside the agent holds a signature of the agent's file, and the agent has an id and a
-- type.
abbrev pub IsVerified : {Key : Type 0} → Files Key → Key → AgentDescription → Type 0
IsVerified files key a =
    (hex : String) × (sig : List ℕ) × (hash : String) × (files.read_file (str_append a.path ".sig")
      ≡ some hex)
    × (files.decode_hex hex ≡ some sig)
    × (files.hash_file a.path ≡ some hash)
    × (files.verify key hash sig ≡ true)
    × (is_blank a.id ≡ false)
    × (is_blank a.type ≡ false)

check_integrity-none :
    {Key : Type 0} (files : Files Key) (key : Key) (a : AgentDescription)
    → (is_blank a.id || is_blank a.type) ≡ false
    → check_integrity files (some key) a ≡ none
    → IsVerified files key a
unfolding check_integrity
check_integrity-none files key a filled h =
    elim (Option-cases (files.read_file (str_append a.path ".sig"))) [
      | inl missing ↦ absurd (ground (arith, h, missing))
      | inr (hex, read) ↦ elim (Option-cases (files.decode_hex hex)) [
        | inl missing ↦ absurd (ground (arith, h, read, missing))
        | inr (sig, decoded) ↦ elim (Option-cases (files.hash_file a.path)) [
          | inl missing ↦ absurd (ground (arith, h, read, decoded, missing))
          | inr (hash, hashed) ↦ (
            hex,
            sig,
            hash,
            read,
            decoded,
            hashed,
            ground (arith, h, read, decoded, hashed),
            ground (arith, filled),
            ground (arith, filled),
          )
        ]
      ]
    ]

collected_both :
    (d : String) (reqs wants : List Edge) (r w : Bool)
    → leads_to d reqs ≡ r
    → leads_to d wants ≡ w
    → (if elem d (collect reqs [])
        then count d (collect reqs [])
        else if leads_to d wants
        then 1
        else 0)
      ≡ (if r || w then 1 else 0)
unfolding elem count
collected_both d reqs wants r w er ew =
    ground (arith, er, ew, count-collect d reqs [], elem_lem d (collect reqs []))

module _ (st : HybridStore AgentDescription) (laws : IsHybridStore st) where
  -- The dependencies of `id` succeed, and hold once each node that is linked in either way.
  get_dependencies_lem :
      (id : String) (s : st.State)
      → IsPlain id
      → laws.IsValid s
      → (deps : List String) × (get_dependencies st id s ≡ some deps)
        × ((d : String)
            → count d deps ≡ (
                if laws.is_linked id edge_kind_requires d s || laws.is_linked id edge_kind_wants d s
                then 1
                else 0))
  unfolding get_dependencies
  get_dependencies_lem id s plain valid =
      let (reqs, found_r, leads_r) =
        laws.neighbors_lem id edge_kind_requires s plain IsPlain-requires valid in
      let (wants, found_w, leads_w) =
        laws.neighbors_lem id edge_kind_wants s plain IsPlain-wants valid in
      (
        collect wants (collect reqs []),
        ap (λ o. collect_both o (st.neighbors id edge_kind_wants s)) found_r
            ∙ ap (λ o. collect_both (some reqs) o) found_w,
        λ d.
            count-collect d wants (collect reqs [])
            ∙ collected_both d reqs wants _ _ (leads_r d) (leads_w d),
      )

  -- After a registration that succeeds, of names without a separator and in a valid store,
  -- GetDependencies of any id without a separator answers, with each name once: those that it answered
  -- before, and those that the registered agent declares for that id, forward or in reverse.
  pub get_dependencies-register :
      {Key : Type 0} (files : Files Key) (key : Option Key) (a : AgentDescription) (s t : st.State)
      (id : String)
      → IsPlain a.id
      → AllPlain a.wanted_by
      → AllPlain a.required_by
      → IsPlain id
      → laws.IsValid s
      → register st files key (some a) s ≡ (t, none)
      → (before after : List String) × (get_dependencies st id s ≡ some before)
        × (get_dependencies st id t ≡ some after)
        × ((d : String) → count d after ≡ (if depends_on a id d || elem d before then 1 else 0))
  get_dependencies-register files key a s t id plain pw pr pi valid h =
      let (valid_t, get_t, linked_t) =
        write_agent_lem st laws a s t plain pw pr valid
          (register-write_agent st laws files key a s t h) in
      let (before, found_s, count_s) = get_dependencies_lem id s pi valid in
      let (after, found_t, count_t) = get_dependencies_lem id t pi valid_t in
      (
        before,
        after,
        found_s,
        found_t,
        λ d. ground (
          arith,
          count_s d,
          count_t d,
          linked_t id edge_kind_requires d pi IsPlain-requires,
          linked_t id edge_kind_wants d pi IsPlain-wants,
          declares-depends_on a id d,
          elem_lem d before,
        ),
      )

  -- A registration that succeeds, of names without a separator and in a valid store, is read back by
  -- Lookup under the agent's id, and every other id reads as before.
  pub lookup-register :
      {Key : Type 0} (files : Files Key) (key : Option Key) (a : AgentDescription) (s t : st.State)
      (id : String)
      → IsPlain a.id
      → AllPlain a.wanted_by
      → AllPlain a.required_by
      → laws.IsValid s
      → register st files key (some a) s ≡ (t, none)
      → lookup st id t ≡ (if same a.id id then some a else lookup st id s)
  unfolding lookup
  lookup-register files key a s t id plain pw pr valid h =
      let (valid_t, get_t, linked_t) =
        write_agent_lem st laws a s t plain pw pr valid
          (register-write_agent st laws files key a s t h) in
      get_t agents_bucket id
      ∙ ap (λ b. if b && same a.id id then some a else st.get agents_bucket id s)
          (same_refl agents_bucket)

  -- With a key, either the registration fails and the store is as it was, or the file beside the
  -- agent holds, in hex, a signature of the hash of the agent's file, and neither the id nor the
  -- type is blank.
  pub register-IsVerified :
      {Key : Type 0} (files : Files Key) (key : Key) (a : AgentDescription) (s : st.State)
      → ((f : Failure) × (register st files (some key) (some a) s ≡ (s, some f)))
        ⊎ IsVerified files key a
  unfolding register
  register-IsVerified files key a s =
      by (is_blank a.id || is_blank a.type) (check_integrity files (some key) a) refl refl
    where
      by :
          (blank : Bool) (o : Option Failure)
          → (is_blank a.id || is_blank a.type) ≡ blank
          → check_integrity files (some key) a ≡ o
          → ((f : Failure) × ((if blank then (s, some invalid_agent) else write_checked st a o s)
                ≡ (s, some f)))
            ⊎ IsVerified files key a
      by true o filled e = inl (invalid_agent, refl)
      by false (some f) filled e = inl (f, refl)
      by false none filled e = inr (check_integrity-none files key a filled e)
