-- ===== src/Capability/Samples.antt =====
-- A token signed with a toy signature that is right once, and what the theorems say of it.
use gapi.Prelude.{
  ℕ, zero, suc, ◌≡◌, ◌↔◌, refl, String, Bool, true, false, ◌&&◌, [], ◌∷◌, Option, none, some,
  length, arith, if◌then◌else◌, ◌==◌, same, inl, inr, Bool-cases, eq_of_same,
}
use gapi.Prelude.Int.{ℤ, pos, negsuc, pos_part, neg_part}
use gapi.Capability.{
  Bytes, Payload, Token, valid, refused, expired, insufficient_rights, Libraries, token,
  sign_capability_token, verify_capability_token, check_key, check_signed, and_not, and_not_bits,
}
use gapi.Capability.Accepted.{
  and_not-eq-zero_iff, IsWhole, IsAuthentic, IsUsable, verify_capability_token-valid_iff,
}
use gapi.Capability.RoundTrip.{IsCodec, IsKeyPair, verify_capability_token-sign_capability_token}

replicate : ℕ → ℕ → Bytes
replicate zero x = []
replicate (suc n) x = x ∷ replicate n x

-- A message with no ids, of the key `k1`, is written as its numbers; another cannot be written.
encode_named : Bool → Payload → Option Bytes
encode_named true p = some (
    p.rights
    ∷ pos_part p.issued_at_ms
    ∷ neg_part p.issued_at_ms
    ∷ pos_part p.expires_at_ms
    ∷ neg_part p.expires_at_ms
    ∷ [])
encode_named false p = none

encode_ids : Bytes → Bytes → Payload → Option Bytes
encode_ids [] [] p = encode_named (same p.key_id "k1" && same p.issuer_node_id "") p
encode_ids [] (b ∷ bs) p = none
encode_ids (b ∷ bs) ids p = none

encode : Payload → Option Bytes
encode p = encode_ids p.token_id p.subject_uuid p

decode_int : ℕ → ℕ → ℤ
decode_int a zero = pos a
decode_int a (suc n) = negsuc n

decode : Bytes → Option Payload
decode (r ∷ a ∷ b ∷ c ∷ d ∷ []) = some (record {
  token_id = [];
  subject_uuid = [];
  rights = r;
  issued_at_ms = decode_int a b;
  expires_at_ms = decode_int c d;
  issuer_node_id = "";
  key_id = "k1";
})
decode _ = none

toy_sign : Bytes → Bytes → Bytes
toy_sign priv raw = length raw ∷ replicate 63 0

toy_verify : Bytes → Bytes → Bytes → Bool
toy_verify key raw [] = false
toy_verify key raw (n ∷ _) = n == length raw

abbrev toy : Libraries
toy = record { marshal = encode; unmarshal = decode; sign = toy_sign; verify = toy_verify }

decode_int_lem : (z : ℤ) → decode_int (pos_part z) (neg_part z) ≡ z
unfolding decode_int
decode_int_lem (pos n) = refl
decode_int_lem (negsuc n) = refl

abbrev payload : Bytes → Bytes → ℕ → ℤ → ℤ → String → String → Payload
payload t u r i e n k = record {
  token_id = t;
  subject_uuid = u;
  rights = r;
  issued_at_ms = i;
  expires_at_ms = e;
  issuer_node_id = n;
  key_id = k;
}

decode-encode_fields :
    (t u : Bytes) (k n : String) (r : ℕ) (i e : ℤ) (raw : Bytes)
    → encode_ids t u (payload t u r i e n k) ≡ some raw
    → decode raw ≡ some (payload t u r i e n k)
unfolding encode_ids encode_named decode
decode-encode_fields [] [] k n r i e raw h = elim (Bool-cases (same k "k1" && same n "")) [
  | inl known ↦ ground (
    arith,
    h,
    known,
    eq_of_same k "k1" (ground arith),
    eq_of_same n "" (ground arith),
    decode_int_lem i,
    decode_int_lem e,
  )
  | inr other ↦ absurd (ground (arith, h, other))
]
decode-encode_fields [] (b ∷ bs) k n r i e raw h = absurd cc
decode-encode_fields (b ∷ bs) u k n r i e raw h = absurd cc

decode-encode : (p : Payload) (raw : Bytes) → encode p ≡ some raw → decode raw ≡ some p
unfolding encode
decode-encode p raw h =
    decode-encode_fields p.token_id p.subject_uuid p.key_id p.issuer_node_id p.rights p.issued_at_ms
      p.expires_at_ms raw h

encode-ne-empty : (t u : Bytes) (p : Payload) → encode_ids t u p ≡ some [] → ⊥
unfolding encode_ids encode_named
encode-ne-empty [] [] p h = by (same p.key_id "k1" && same p.issuer_node_id "") h
  where
    by : (b : Bool) → encode_named b p ≡ some [] → ⊥
    by true e = cc
    by false e = cc
encode-ne-empty [] (b ∷ bs) p h = cc
encode-ne-empty (b ∷ bs) u p h = cc

toy-IsCodec : IsCodec toy
unfolding encode decode
toy-IsCodec = (decode-encode, λ p h. absurd (encode-ne-empty p.token_id p.subject_uuid p h))

toy-IsKeyPair : (priv key : Bytes) → IsKeyPair toy priv key
unfolding toy_sign toy_verify replicate
toy-IsKeyPair priv key = (λ raw. refl, λ raw. ground arith)

abbrev grant : Payload
grant = record {
  token_id = [];
  subject_uuid = [];
  rights = 3;
  issued_at_ms = pos 1000;
  expires_at_ms = pos 2000;
  issuer_node_id = "";
  key_id = "k1";
}

abbrev keys : String → Option Bytes
keys name = if same name "k1" then some (replicate 32 7) else none

abbrev signed : Token
signed = record {
  payload = 3 ∷ 1000 ∷ 0 ∷ 2000 ∷ 0 ∷ [];
  signature = toy_sign (replicate 64 5) (3 ∷ 1000 ∷ 0 ∷ 2000 ∷ 0 ∷ []);
}

sign-grant : sign_capability_token toy (some grant) (replicate 64 5) ≡ token signed
unfolding sign_capability_token encode encode_ids encode_named same replicate
sign-grant = refl

verify-late : verify_capability_token toy (some signed) (some keys) (pos 2000) 1 ≡ refused expired
unfolding verify_capability_token check_key check_signed same replicate toy_sign toy_verify decode
    decode_int
verify-late = refl

verify-greedy :
    verify_capability_token toy (some signed) (some keys) (pos 1500) 4 ≡ refused insufficient_rights
unfolding verify_capability_token check_key check_signed same replicate toy_sign toy_verify decode
    decode_int and_not and_not_bits
verify-greedy = refl

known_key : keys "k1" ≡ some (replicate 32 7)
unfolding same
known_key = refl

key_size : length (replicate 32 7) ≡ 32
unfolding replicate
key_size = refl

grant-IsUsable : IsUsable grant (pos 1500) 1
unfolding and_not and_not_bits
grant-IsUsable = (omega arith, omega arith, (and_not-eq-zero_iff 1 3).0 refl)

verify_capability_token-sign_capability_token_example :
    verify_capability_token toy (some signed) (some keys) (pos 1500) 1 ≡ valid grant
verify_capability_token-sign_capability_token_example =
    verify_capability_token-sign_capability_token toy grant (replicate 64 5) (replicate 32 7) keys
      signed (pos 1500) 1 toy-IsCodec (toy-IsKeyPair (replicate 64 5) (replicate 32 7)) known_key
      key_size grant-IsUsable sign-grant

verify_capability_token-valid_iff_example :
    (verify_capability_token toy (some signed) (some keys) (pos 1500) 1 ≡ valid grant)
    ↔ (IsWhole signed × IsAuthentic toy signed keys grant × IsUsable grant (pos 1500) 1)
verify_capability_token-valid_iff_example =
    verify_capability_token-valid_iff toy signed keys (pos 1500) 1 grant
