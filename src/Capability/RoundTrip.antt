-- ===== src/Capability/RoundTrip.antt =====
-- A token that was just signed is accepted in its window.
use gapi.Prelude.{
  ℕ, ◌≡◌, ◌≢◌, refl, String, true, [], ◌∷◌, Option, some, length, arith, Option-cases, inl, inr,
  ◌⊎◌,
}
use mathlib.Core.Path.{subst}
use gapi.Prelude.Int.{ℤ, pos}
use gapi.Capability.{
  Bytes, Payload, Token, Verdict, valid, refused, expired, insufficient_rights, Libraries, token,
  sign_capability_token, verify_capability_token, check_key, check_signed, signature_size,
  public_key_size,
}
use gapi.Capability.Accepted.{IsAuthentic, IsUsable, verify_capability_token-valid_iff}

abbrev pub zero_payload : Payload
zero_payload = record {
  token_id = [];
  subject_uuid = [];
  rights = 0;
  issued_at_ms = pos 0;
  expires_at_ms = pos 0;
  issuer_node_id = "";
  key_id = "";
}

-- What the protobuf codec documents: decoding undoes encoding, and only the message whose fields
-- are all zero has an empty encoding.
abbrev pub IsCodec : Libraries → Type 0
IsCodec lib =
    ((p : Payload) (raw : Bytes) → lib.marshal p ≡ some raw → lib.unmarshal raw ≡ some p)
    × ((p : Payload) → lib.marshal p ≡ some [] → p ≡ zero_payload)

-- What Ed25519 documents of a private key and its public key.
abbrev pub IsKeyPair : Libraries → Bytes → Bytes → Type 0
IsKeyPair lib priv pub_key =
    ((raw : Bytes) → length (lib.sign priv raw) ≡ signature_size)
    × ((raw : Bytes) → lib.verify pub_key raw (lib.sign priv raw) ≡ true)

empty_of_length : (raw : Bytes) → length raw ≡ 0 → raw ≡ []
empty_of_length [] h = refl
empty_of_length (b ∷ bs) h = absurd (omega arith)

not_zero : (p : Payload) (now : ℤ) (required : ℕ) → IsUsable p now required → p ≢ zero_payload
not_zero p now required usable e =
    let (window, _, _) = subst (λ r. IsUsable r now required) e usable in omega arith

module _ (lib : Libraries) (p : Payload) where
  -- What a signed token holds.
  sign_capability_token-token :
      (priv : Bytes) (tok : Token)
      → sign_capability_token lib (some p) priv ≡ token tok
      → (lib.marshal p ≡ some tok.payload) × (tok.signature ≡ lib.sign priv tok.payload)
  unfolding sign_capability_token
  sign_capability_token-token priv tok h = elim (Option-cases (lib.marshal p)) [
    | inl failed ↦ absurd (ground (arith, failed))
    | inr (raw, ok) ↦ ground (arith, ok)
  ]

  -- If the codec and the signatures do what they document, a token that `SignCapabilityToken`
  -- returns for a payload is accepted by `VerifyCapabilityToken` with that payload, at every moment
  -- before its end and for every set of rights that it grants, when its end is after its issue and
  -- the resolver knows the public key under the payload's key name.
  pub verify_capability_token-sign_capability_token :
      (priv pub_key : Bytes) (keys : String → Option Bytes) (tok : Token) (now : ℤ) (required : ℕ)
      → IsCodec lib
      → IsKeyPair lib priv pub_key
      → keys p.key_id ≡ some pub_key
      → length pub_key ≡ public_key_size
      → IsUsable p now required
      → sign_capability_token lib (some p) priv ≡ token tok
      → verify_capability_token lib (some tok) (some keys) now required ≡ valid p
  verify_capability_token-sign_capability_token priv pub_key keys tok now required codec pair known
        size usable h =
      let (marshalled, signed) = sign_capability_token-token priv tok h in
      (verify_capability_token-valid_iff lib tok keys now required p).1 (
        (
          λ empty.
              not_zero p now required usable
                (codec.1 p (ground (arith, marshalled, empty_of_length tok.payload empty))),
          ground (arith, signed, pair.0 tok.payload),
        ),
        (
          pub_key,
          codec.0 p tok.payload marshalled,
          known,
          size,
          ground (arith, signed, pair.1 tok.payload),
        ),
        usable,
      )

-- A refusal because of the end of a token or of its rights is about a token that its key signed.
module _ (lib : Libraries) (tok : Token) (keys : String → Option Bytes) (now : ℤ)
    (required : ℕ) where
  abbrev verdict : Verdict
  verdict = verify_capability_token lib (some tok) (some keys) now required

  -- A token is called expired, or short of rights, only if its bytes decode and are signed by the
  -- key that the resolver knows for them: no other field is used before the signature is checked.
  pub verify_capability_token-IsAuthentic :
      (verdict ≡ refused expired) ⊎ (verdict ≡ refused insufficient_rights)
      → (p : Payload) × IsAuthentic lib tok keys p
  unfolding verify_capability_token check_key check_signed
  verify_capability_token-IsAuthentic h = elim (Option-cases (lib.unmarshal tok.payload)) [
    | inl undecodable ↦ absurd (ground (arith, undecodable))
    | inr (p, e) ↦ elim (Option-cases (keys p.key_id)) [
      | inl unknown ↦ absurd (ground (arith, e, unknown))
      | inr (key, known) ↦ (p, (key, e, known, ground (arith, e, known), ground (arith, e, known)))
    ]
  ]
