-- ===== src/Registry/Writes.antt =====
-- What a registration writes.
use gapi.Prelude.{
  ◌≡◌, refl, ap, ◌∙◌, String, Bool, true, false, ◌&&◌, ◌||◌, List, [], ◌∷◌, Option, none, some,
  same, arith, if◌then◌else◌,
}
use mathlib.Core.Path.{subst}
use gapi.Prelude.Text.{is_blank, contains}
use gapi.Store.Graph.{Edge}
use gapi.Store.Interface.{HybridStore, IsHybridStore}
use gapi.Store.Keys.{IsPlain}
use gapi.Registry.Register.{
  AgentDescription, Failure, Files, invalid_agent, no_record, no_node, no_requires, no_wants,
  no_wanted_by, no_required_by, agents_bucket, edge_kind_requires, edge_kind_wants, edge_to,
  check_integrity, attempt, and_then, write_edges, write_all_edges, node_of, write_agent,
  write_checked, register,
}

-- The edges made for a list of names have an end and a kind.
unfoldable pub links : (String → Edge) → List String → String → String → String → Bool
links edge [] id kind d = false
links edge (x ∷ xs) id kind d =
    (same (edge x).from id && same (edge x).kind kind && same (edge x).to d)
    || links edge xs id kind d

abbrev PlainEdges : (String → Edge) → List String → Type 0
PlainEdges edge [] = Unit
PlainEdges edge (x ∷ xs) = IsPlain (edge x).from × IsPlain (edge x).kind × PlainEdges edge xs

abbrev pub AllPlain : List String → Type 0
AllPlain [] = Unit
AllPlain (x ∷ xs) = IsPlain x × AllPlain xs

-- The edges that an agent declares, forward and in reverse.
unfoldable pub declares : AgentDescription → String → String → String → Bool
unfolding links
declares a id kind d =
    links (edge_to a.id edge_kind_requires) a.requires id kind d
    || (links (edge_to a.id edge_kind_wants) a.wants id kind d
        || (links (λ x. edge_to x edge_kind_wants a.id) a.wanted_by id kind d
            || links (λ x. edge_to x edge_kind_requires a.id) a.required_by id kind d))

pub IsPlain-requires : IsPlain edge_kind_requires
unfolding contains
IsPlain-requires = refl

pub IsPlain-wants : IsPlain edge_kind_wants
unfolding contains
IsPlain-wants = refl

plain_out :
    (id kind : String)
    → IsPlain id
    → IsPlain kind
    → (xs : List String) → PlainEdges (edge_to id kind) xs
plain_out id kind pi pk [] = tt
plain_out id kind pi pk (x ∷ xs) = (pi, pk, plain_out id kind pi pk xs)

plain_in :
    (id kind : String)
    → IsPlain kind
    → (xs : List String) → AllPlain xs
    → PlainEdges (λ x. edge_to x kind id) xs
plain_in id kind pk [] h = tt
plain_in id kind pk (x ∷ xs) (px, h) = (px, pk, plain_in id kind pk xs h)

module _ (st : HybridStore AgentDescription) (laws : IsHybridStore st) where
  -- From `s` to `t`: the records are as they were, and the edges that `new` tells are added.
  abbrev Adds : (String → String → String → Bool) → st.State → st.State → Type 0
  Adds new s t =
      laws.IsValid t
      × ((c j : String) → st.get c j t ≡ st.get c j s)
      × ((id kind d : String)
          → IsPlain id
          → IsPlain kind
          → laws.is_linked id kind d t ≡ (new id kind d || laws.is_linked id kind d s))

  Adds-trans :
      (m n : String → String → String → Bool) (s t u : st.State)
      → Adds m s t
      → Adds n t u
      → Adds (λ id kind d. m id kind d || n id kind d) s u
  Adds-trans m n s t u (valid_t, get_t, linked_t) (valid_u, get_u, linked_u) = (
    valid_u,
    λ c j. get_u c j ∙ get_t c j,
    λ id kind d pi pk. ground (arith, linked_u id kind d pi pk, linked_t id kind d pi pk),
  )

  add_edge-Adds :
      (e : Edge) (s t : st.State)
      → IsPlain e.from
      → IsPlain e.kind
      → laws.IsValid s
      → st.add_edge e s ≡ some t
      → Adds (λ id kind d. same e.from id && same e.kind kind && same e.to d) s t
  add_edge-Adds e s t pf pk valid h = (
    laws.add_edge-IsValid e s t pf pk h valid,
    laws.get-add_edge e s t h,
    laws.is_linked-add_edge e s t pf pk h,
  )

  attempt-none :
      (s t : st.State) (f : Failure) (o : Option st.State)
      (k : st.State → st.State × Option Failure)
      → attempt st s f o k ≡ (t, none)
      → (u : st.State) × (o ≡ some u) × (k u ≡ (t, none))
  attempt-none s t f none k h = absurd cc
  attempt-none s t f (some u) k h = (u, refl, h)

  and_then-none :
      (t : st.State) (w : st.State × Option Failure) (k : st.State → st.State × Option Failure)
      → and_then st w k ≡ (t, none)
      → (u : st.State) × (w ≡ (u, none)) × (k u ≡ (t, none))
  and_then-none t (s, none) k h = (s, refl, h)
  and_then-none t (s, some f) k h = absurd cc

  write_edges-Adds :
      (edge : String → Edge) (f : Failure) (xs : List String) (s t : st.State)
      → PlainEdges edge xs
      → laws.IsValid s
      → write_edges st edge f xs s ≡ (t, none)
      → Adds (links edge xs) s t
  unfolding write_edges links
  write_edges-Adds edge f [] s t plain valid h =
      let e : s ≡ t = ap (λ w. w.0) h in
      subst (λ x. Adds (links edge []) s x) e (valid, λ c j. refl, λ id kind d pi pk. refl)
  write_edges-Adds edge f (x ∷ xs) s t (pf, pk, plain) valid h =
      let (u, added, rest) = attempt-none s t f (st.add_edge (edge x) s) _ h in
      let step = add_edge-Adds (edge x) s u pf pk valid added in
      Adds-trans _ (links edge xs) s u t step (write_edges-Adds edge f xs u t plain step.0 rest)

  write_all_edges-Adds :
      (a : AgentDescription) (s t : st.State)
      → IsPlain a.id
      → AllPlain a.wanted_by
      → AllPlain a.required_by
      → laws.IsValid s
      → write_all_edges st a s ≡ (t, none)
      → Adds (declares a) s t
  unfolding write_all_edges declares
  write_all_edges-Adds a s t plain pw pr valid h =
      let out_req = edge_to a.id edge_kind_requires in
      let out_want = edge_to a.id edge_kind_wants in
      let in_want = λ (x : String). edge_to x edge_kind_wants a.id in
      let in_req = λ (x : String). edge_to x edge_kind_requires a.id in
      let (u, hu, ku) = and_then-none t _ _ h in
      let (v, hv, kv) = and_then-none t _ _ ku in
      let (w, hw, kw) = and_then-none t _ _ kv in
      let a1 =
        write_edges-Adds out_req no_requires a.requires s u
          (plain_out a.id edge_kind_requires plain IsPlain-requires a.requires) valid hu in
      let a2 =
        write_edges-Adds out_want no_wants a.wants u v
          (plain_out a.id edge_kind_wants plain IsPlain-wants a.wants) a1.0 hv in
      let a3 =
        write_edges-Adds in_want no_wanted_by a.wanted_by v w
          (plain_in a.id edge_kind_wants IsPlain-wants a.wanted_by pw) a2.0 hw in
      let a4 =
        write_edges-Adds in_req no_required_by a.required_by w t
          (plain_in a.id edge_kind_requires IsPlain-requires a.required_by pr) a3.0 kw in
      Adds-trans _ _ s u t a1 (Adds-trans _ _ u v t a2 (Adds-trans _ _ v w t a3 a4))

  -- A registration that succeeds: the agent is found under its id, every other record is as it was,
  -- and the edges that it declares are there, with those that were there before.
  pub write_agent_lem :
      (a : AgentDescription) (s t : st.State)
      → IsPlain a.id
      → AllPlain a.wanted_by
      → AllPlain a.required_by
      → laws.IsValid s
      → write_agent st a s ≡ (t, none)
      → laws.IsValid t
        × ((c j : String)
            → st.get c j t ≡ (if same agents_bucket c && same a.id j then some a else st.get c j s))
        × ((id kind d : String)
            → IsPlain id
            → IsPlain kind
            → laws.is_linked id kind d t ≡ (declares a id kind d || laws.is_linked id kind d s))
  unfolding write_agent
  write_agent_lem a s t plain pw pr valid h =
      let (u, set_u, ku) = attempt-none s t no_record _ _ h in
      let (v, node_v, kv) = attempt-none u t no_node _ _ ku in
      let valid_u = laws.set-IsValid agents_bucket a.id a s u set_u valid in
      let valid_v = laws.add_node-IsValid (node_of st a) u v node_v valid_u in
      let (valid_t, get_t, linked_t) = write_all_edges-Adds a v t plain pw pr valid_v kv in
      (
        valid_t,
        λ c j.
            get_t c j
            ∙ laws.get-add_node (node_of st a) u v node_v c j
            ∙ laws.get-set agents_bucket a.id a s u set_u c j,
        λ id kind d pi pk.
            linked_t id kind d pi pk
            ∙ ap (λ b. declares a id kind d || b)
                (laws.is_linked-add_node (node_of st a) u v node_v id kind d
                  ∙ laws.is_linked-set agents_bucket a.id a s u set_u id kind d),
      )

  pub register-write_agent :
      {Key : Type 0} (files : Files Key) (key : Option Key) (a : AgentDescription) (s t : st.State)
      → register st files key (some a) s ≡ (t, none)
      → write_agent st a s ≡ (t, none)
  unfolding register
  register-write_agent files key a s t h =
      by (is_blank a.id || is_blank a.type) (check_integrity files key a) h
    where
      by :
          (blank : Bool) (o : Option Failure)
          → (if blank then (s, some invalid_agent) else write_checked st a o s) ≡ (t, none)
          → write_agent st a s ≡ (t, none)
      by true o e = absurd cc
      by false none e = e
      by false (some f) e = absurd cc
