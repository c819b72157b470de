-- ===== src/Store/Keys.antt =====
-- internal/db/graphdb/graphdb.go: the keys of edges, and what can be read off them.
use gapi.Prelude.{◌≡◌, refl, sym, ap, ◌∙◌, String, true, false, arith}
use gapi.Prelude.Text.{contains}
use Prim.Native.String.{◌++◌ as str_append, ◌∷◌, []}
use Prim.Native.Char.{Char, code}
use text.Mathlib.Text.{starts_with}
use text.Mathlib.TextEquality.{starts_with_iff}
use text.Mathlib.TextPositions.{starts_with_of_prefix}
use text.Mathlib.TextLemmas.{
  append_assoc, cons-append, nil-append, head-eq_of_cons-eq, tail-eq_of_cons-eq,
}

-- `fmt.Sprintf("%s|%s|", id, kind)`
unfoldable pub prefix_key : String → String → String
prefix_key id kind = str_append id (str_append "|" (str_append kind "|"))

-- `fmt.Sprintf("%s|%s|%s", e.From, e.Kind, e.To)`
unfoldable pub edge_key : String → String → String → String
edge_key from kind to = str_append from (str_append "|" (str_append kind (str_append "|" to)))

-- A text without the separator.
abbrev pub IsPlain : String → Type 0
IsPlain s = contains 124 s ≡ false

abbrev bar : Char
bar = "|"

cons-append_nil : (c : Char) (a s : String) → str_append (c ∷ a) s ≡ c ∷ str_append a s
cons-append_nil c a s = cons-append c a s

bar_lem : (s : String) → str_append "|" s ≡ bar ∷ s
bar_lem s = cons-append bar [] s ∙ ap (λ r. bar ∷ r) (nil-append s)

-- What stands before the first separator, and what stands behind it.
separated :
    (a b s t : String)
    → IsPlain a
    → IsPlain b
    → str_append a (bar ∷ s) ≡ str_append b (bar ∷ t)
    → (a ≡ b) × (s ≡ t)
unfolding contains
separated [] [] s t pa pb e =
    (refl, tail-eq_of_cons-eq (sym (nil-append (bar ∷ s)) ∙ e ∙ nil-append (bar ∷ t)))
separated [] (d ∷ b) s t pa pb e =
    let heads : bar ≡ d =
      head-eq_of_cons-eq (sym (nil-append (bar ∷ s)) ∙ e ∙ cons-append d b (bar ∷ t)) in
    absurd (ground (arith, ap code heads))
separated (c ∷ a) [] s t pa pb e =
    let heads : c ≡ bar =
      head-eq_of_cons-eq (sym (cons-append c a (bar ∷ s)) ∙ e ∙ nil-append (bar ∷ t)) in
    absurd (ground (arith, ap code heads))
separated (c ∷ a) (d ∷ b) s t pa pb e =
    let tails = sym (cons-append c a (bar ∷ s)) ∙ e ∙ cons-append d b (bar ∷ t) in
    let (rest, behind) =
      separated a b s t (ground arith) (ground arith) (tail-eq_of_cons-eq tails) in
    (ground (arith, head-eq_of_cons-eq tails, rest), behind)

opened :
    (a b s t : String)
    → IsPlain a
    → IsPlain b
    → str_append a (str_append "|" s) ≡ str_append b (str_append "|" t)
    → (a ≡ b) × (s ≡ t)
opened a b s t pa pb e =
    separated a b s t pa pb
      (sym (ap (λ r. str_append a r) (bar_lem s)) ∙ e ∙ ap (λ r. str_append b r) (bar_lem t))

-- An edge is determined by its key.
pub edge_key_inj :
    (from kind to from' kind' to' : String)
    → IsPlain from
    → IsPlain kind
    → IsPlain from'
    → IsPlain kind'
    → edge_key from kind to ≡ edge_key from' kind' to'
    → (from ≡ from') × (kind ≡ kind') × (to ≡ to')
unfolding edge_key
edge_key_inj from kind to from' kind' to' pf pk pf' pk' e =
    let (same_from, rest) = opened from from' _ _ pf pf' e in
    let (same_kind, same_to) = opened kind kind' _ _ pk pk' rest in (same_from, same_kind, same_to)

prefix_key-append :
    (id kind rest : String) → str_append (prefix_key id kind) rest ≡ edge_key id kind rest
unfolding prefix_key edge_key
prefix_key-append id kind rest =
    append_assoc id (str_append "|" (str_append kind "|")) rest
    ∙ ap (λ r. str_append id r)
        (append_assoc "|" (str_append kind "|") rest
          ∙ ap (λ r. str_append "|" r) (append_assoc kind "|" rest))

pub starts_with-edge_key :
    (id kind to : String) → starts_with (edge_key id kind to) (prefix_key id kind) ≡ true
starts_with-edge_key id kind to =
    starts_with_of_prefix (prefix_key id kind) (edge_key id kind to)
      (to, prefix_key-append id kind to)

-- The keys with the beginning of a node and a kind are the keys of its edges of that kind.
pub edge_key_of_prefix :
    (from kind to id kind' : String)
    → IsPlain from
    → IsPlain kind
    → IsPlain id
    → IsPlain kind'
    → starts_with (edge_key from kind to) (prefix_key id kind') ≡ true
    → (from ≡ id) × (kind ≡ kind')
edge_key_of_prefix from kind to id kind' pf pk pi pk' h =
    let (rest, e) = (starts_with_iff (edge_key from kind to) (prefix_key id kind')).0 h in
    let (same_from, same_kind, _) =
      edge_key_inj id kind' rest from kind to pi pk' pf pk
        (sym (prefix_key-append id kind' rest) ∙ e) in
    (sym same_from, sym same_kind)
