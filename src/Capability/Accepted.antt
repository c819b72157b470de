-- ===== src/Capability/Accepted.antt =====
-- When a token is accepted, and that nothing but the key's name is read before the signature is
-- checked.
use mathlib.Core.Path.{subst}
use gapi.Prelude.{
  ℕ, ◌≡◌, ◌≢◌, ◌≤◌, ◌<◌, ◌↔◌, refl, ap, String, true, false, Option, none, some, length,
  Option-cases, inl, inr, arith,
}
use gapi.Prelude.Int.{ℤ, leb_int, ◌<ℤ◌}
use gapi.Capability.{
  Bytes, Payload, Token, Verdict, valid, Libraries, check_signed, check_key,
  verify_capability_token, signature_size, public_key_size, and_not, bit,
}
use gapi.Capability.Rights.{and_not_bits-eq-zero, and_not_bits_of_le}

-- `a` grants every right that `required` asks for.
abbrev pub Grants : ℕ → ℕ → Type 0
Grants required rights = (k : ℕ) → k < 64 → bit k required ≤ bit k rights

pub and_not-eq-zero_iff : (a b : ℕ) → (and_not a b ≡ 0) ↔ Grants a b
unfolding and_not
and_not-eq-zero_iff a b = (λ h k lt. and_not_bits-eq-zero 64 a b k h lt, and_not_bits_of_le 64 a b)

of_leb_int : (a b : ℤ) → leb_int a b ≡ false → b <ℤ a
of_leb_int a b h = ground arith

leb_int_of : (a b : ℤ) → b <ℤ a → leb_int a b ≡ false
leb_int_of a b h = ground arith

-- In its window at `now`, with every right that is asked for.
abbrev pub IsUsable : Payload → ℤ → ℕ → Type 0
IsUsable p now required =
    (p.issued_at_ms <ℤ p.expires_at_ms) × (now <ℤ p.expires_at_ms) × Grants required p.rights

-- A structurally whole token gets past the first guard.
abbrev pub IsWhole : Token → Type 0
IsWhole tok = (length tok.payload ≢ 0) × (length tok.signature ≡ signature_size)

module _ (lib : Libraries) where
  -- The payload's bytes are signed by the key that the resolver knows under the payload's key name.
  abbrev pub IsAuthentic : Token → (String → Option Bytes) → Payload → Type 0
  IsAuthentic tok keys p =
      (key : Bytes) × (lib.unmarshal tok.payload ≡ some p)
      × (keys p.key_id ≡ some key)
      × (length key ≡ public_key_size)
      × (lib.verify key tok.payload tok.signature ≡ true)

  check_signed_cases :
      (tok : Token) (p : Payload) (key : Bytes) (now : ℤ) (required : ℕ)
      → lib.verify key tok.payload tok.signature ≡ true
      → IsUsable p now required
      → check_signed lib tok p key now required ≡ valid p
  unfolding check_signed
  check_signed_cases tok p key now required sig (window, live, grants) = ground (
    arith,
    leb_int_of p.expires_at_ms p.issued_at_ms window,
    leb_int_of p.expires_at_ms now live,
    (and_not-eq-zero_iff required p.rights).1 grants,
  )

  check_signed-valid :
      (tok : Token) (p q : Payload) (key : Bytes) (now : ℤ) (required : ℕ)
      → check_signed lib tok p key now required ≡ valid q
      → (p ≡ q) × (lib.verify key tok.payload tok.signature ≡ true) × IsUsable p now required
  unfolding check_signed
  check_signed-valid tok p q key now required h = (
    ground arith,
    ground arith,
    (
      of_leb_int p.expires_at_ms p.issued_at_ms (ground arith),
      of_leb_int p.expires_at_ms now (ground arith),
      (and_not-eq-zero_iff required p.rights).0 (ground arith),
    ),
  )

  module _ (tok : Token) (keys : String → Option Bytes) (now : ℤ) (required : ℕ) where
    abbrev verdict : Verdict
    verdict = verify_capability_token lib (some tok) (some keys) now required

    decoded :
        (p : Payload) (o : Option Payload)
        → lib.unmarshal tok.payload ≡ o
        → verdict ≡ valid p
        → IsWhole tok
          × (o ≡ some p)
          × ((key : Bytes) × (keys p.key_id ≡ some key)
              × (length key ≡ public_key_size)
              × (lib.verify key tok.payload tok.signature ≡ true)
              × IsUsable p now required)
    unfolding verify_capability_token check_key
    decoded p none e h = absurd (ground (arith, e))
    decoded p (some p') e h = elim (Option-cases (keys p'.key_id)) [
      | inl unknown ↦ absurd (ground (arith, e, unknown))
      | inr (key, known) ↦
          let (same_p, sig, usable) =
            check_signed-valid tok p' p key now required (ground (arith, e, known)) in
          (
            (ground (arith, e, known), ground (arith, e, known)),
            ap some same_p,
            (
              key,
              subst (λ r. keys r.key_id ≡ some key) same_p known,
              ground (arith, e, known),
              sig,
              subst (λ r. IsUsable r now required) same_p usable,
            ),
          )
    ]

    -- A token is accepted, with the payload `p`, exactly if it is whole, its bytes decode to `p`
    -- and are signed by the resolved key of 32 bytes, `now` is before its end, its end is after its
    -- issue, and no right asked for is missing.
    pub verify_capability_token-valid_iff :
        (p : Payload)
        → (verdict ≡ valid p) ↔ (IsWhole tok × IsAuthentic tok keys p × IsUsable p now required)
    unfolding verify_capability_token check_key
    verify_capability_token-valid_iff p = (accepted, back)
      where
        accepted :
            verdict ≡ valid p → IsWhole tok × IsAuthentic tok keys p × IsUsable p now required
        accepted h =
            let (whole, e, (key, known, size, sig, usable)) =
              decoded p (lib.unmarshal tok.payload) refl h in
            (whole, (key, e, known, size, sig), usable)

        back : IsWhole tok × IsAuthentic tok keys p × IsUsable p now required → verdict ≡ valid p
        back (whole, (key, e, known, size, sig), usable) =
            ground (arith, e, known, check_signed_cases tok p key now required sig usable)
