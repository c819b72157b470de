-- ===== src/Capability.antt =====
-- core/crypto/capability.go: signing and verifying capability tokens.
--
-- A text of bytes is a list of numbers. The protobuf codec and Ed25519 are parameters. A rights
-- bitmap is a `uint64`; `&^` is written out bit by bit.
mod Rights
pub mod Accepted
pub mod RoundTrip
mod Samples
unfoldable pub use Rights.*
use gapi.Prelude.{
  ℕ, String, Bool, true, false, not, ◌||◌, List, [], Option, none, some, ◌==◌, if◌then◌else◌,
  length,
}
use gapi.Prelude.Int.{ℤ, leb_int}

abbrev pub Bytes : Type 0
Bytes = List ℕ

pub record Payload : Type 0 where
  pub token_id : Bytes
  pub subject_uuid : Bytes
  pub rights : ℕ
  pub issued_at_ms : ℤ
  pub expires_at_ms : ℤ
  pub issuer_node_id : String
  pub key_id : String

pub record Token : Type 0 where
  pub payload : Bytes
  pub signature : Bytes

pub data TokenError : Type 0 where
  malformed unknown_key bad_signature expired insufficient_rights : TokenError

pub data Verdict : Type 0 where
  valid : Payload → Verdict
  refused : TokenError → Verdict

abbrev pub signature_size : ℕ
signature_size = 64

abbrev pub public_key_size : ℕ
public_key_size = 32

abbrev pub private_key_size : ℕ
private_key_size = 64

-- `proto.Marshal` and `proto.Unmarshal` at the payload's type; `ed25519.Sign` and `ed25519.Verify`.
pub record Libraries : Type 0 where
  pub marshal : Payload → Option Bytes
  pub unmarshal : Bytes → Option Payload
  pub sign : Bytes → Bytes → Bytes
  pub verify : Bytes → Bytes → Bytes → Bool

pub data Signed : Type 0 where
  token : Token → Signed
  no_payload bad_key_size marshal_failed : Signed

module _ (lib : Libraries) where
  -- `SignCapabilityToken`; a missing payload is `none`.
  unfoldable pub sign_capability_token : Option Payload → Bytes → Signed
  sign_capability_token none priv = no_payload
  sign_capability_token (some payload) priv =
      if length priv == private_key_size
      then elim (lib.marshal payload) [
        | none ↦ marshal_failed
        | some raw ↦ token (record { payload = raw; signature = lib.sign priv raw })
      ]
      else bad_key_size

  -- From the check of the signature on, in the source's order.
  unfoldable pub check_signed : Token → Payload → Bytes → ℤ → ℕ → Verdict
  check_signed tok payload pub_key now required =
      if not (lib.verify pub_key tok.payload tok.signature)
      then refused bad_signature
      else if leb_int payload.expires_at_ms payload.issued_at_ms
      then refused malformed
      else if leb_int payload.expires_at_ms now
      then refused expired
      else if not (and_not required payload.rights == 0)
      then refused insufficient_rights
      else valid payload

  -- The key: resolved, and of the right size.
  unfoldable pub check_key : Token → Payload → Option Bytes → ℤ → ℕ → Verdict
  unfolding check_signed
  check_key tok payload none now required = refused unknown_key
  check_key tok payload (some pub_key) now required =
      if length pub_key == public_key_size
      then check_signed tok payload pub_key now required
      else refused unknown_key

  -- `VerifyCapabilityToken`; a nil token or resolver is `none`.
  unfoldable pub verify_capability_token :
      Option Token → Option (String → Option Bytes) → ℤ → ℕ → Verdict
  unfolding check_key
  verify_capability_token none resolve now required = refused malformed
  verify_capability_token (some tok) resolve now required =
      if length tok.payload == 0 || not (length tok.signature == signature_size)
      then refused malformed
      else elim resolve [
        | none ↦ refused unknown_key
        | some keys ↦ elim (lib.unmarshal tok.payload) [
          | none ↦ refused malformed
          | some payload ↦ check_key tok payload (keys payload.key_id) now required
        ]
      ]
