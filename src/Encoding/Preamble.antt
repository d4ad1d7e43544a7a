-- ===== src/Encoding/Preamble.antt =====
-- The preamble that the decoders of protocol/src/encoding/v1/mod.rs check first.
use mpc_sdk_framework.Prelude.{ℕ, ◌≡◌, refl, Option, none, some, nat_eq, list_eq, beq→eq, arith}
use mpc_sdk_framework.Types
use mpc_sdk_framework.Messages.{Bytes, RequestMessage, ResponseMessage}
use mpc_sdk_framework.Wire.{BinaryStream, Result, ok, err, panic, ok_or, Error}
use mpc_sdk_framework.Wire.Reader.{Reader, ◌>>=◌, ◌>>◌, and_then, pure, fail, read_bytes, read_u16}
use mpc_sdk_framework.Encoding.Buffers.{check_identity, check_version, decode_preamble}
use mpc_sdk_framework.Encoding.Decode.{decode_request, decode_response}

-- A run that succeeds, taken apart at its first step.
module _ {ℓ κ} {A : Type ℓ} {B : Type κ} where
  bind_cases :
      (r : Result (A × Bytes)) (k : A → Reader B) {b : B} {left : Bytes}
      → and_then r k ≡ ok (b, left)
      → (a : A) × (rest : Bytes) × (r ≡ ok (a, rest)) × (k a rest ≡ ok (b, left))
  unfolding and_then
  bind_cases (ok (a, rest)) k e = (a, rest, refl, e)
  bind_cases (err x) k e = cc
  bind_cases panic k e = cc

ok_or-ok {ℓ} : {A : Type ℓ} (o : Option A) (x : Error) {a : A} → ok_or o x ≡ ok a → o ≡ some a
ok_or-ok none x e = cc
ok_or-ok (some b) x e = cc

check_identity-ok :
    (identity input rest : Bytes)
    → check_identity identity input ≡ ok (tt, rest)
    → (identity ≡ Types.identity) × (rest ≡ input)
unfolding check_identity pure fail
check_identity-ok identity input rest e = ground (arith, beq→eq identity Types.identity)

check_version-ok :
    (version : ℕ) (input rest : Bytes)
    → check_version version input ≡ ok (tt, rest)
    → (version ≡ Types.version) × (rest ≡ input)
unfolding check_version pure fail
check_version-ok version input rest e = ground arith

module _ ⦃bin : BinaryStream⦄ where
  -- The input begins with the identity and the version, as the primitives read them.
  pub record HasPreamble (input : Bytes) : Type 0 where
    pub versioned : Bytes
    pub body : Bytes
    pub identity : bin.bytes_read 4 input ≡ some (Types.identity, versioned)
    pub version : bin.u16_read versioned ≡ some (Types.version, body)

  decode_preamble-ok :
      (input rest : Bytes) → decode_preamble input ≡ ok (tt, rest) → HasPreamble input
  unfolding decode_preamble ◌>>=◌ ◌>>◌ read_bytes read_u16
  decode_preamble-ok input rest e =
      let (identity, versioned, read, checked) =
        bind_cases (ok_or (bin.bytes_read 4 input) Error.io) _ e in
      let (u, same, passed, more) = bind_cases (check_identity identity versioned) _ checked in
      let (v, body, number, matched) = bind_cases (ok_or (bin.u16_read same) Error.io) _ more in
      let is_identity = check_identity-ok identity versioned same passed in
      let is_version = check_version-ok v body rest matched in
      record {
        versioned = versioned;
        body = body;
        identity = cc (ok_or-ok (bin.bytes_read 4 input) _ read, is_identity.0);
        version = cc (ok_or-ok (bin.u16_read same) _ number, is_version.0, is_identity.1);
      }

  -- A request is only ever decoded from input that begins with the identity `MPCR` and version 1.
  pub decode_request-HasPreamble :
      (input rest : Bytes) (m : RequestMessage)
      → decode_request input ≡ ok (m, rest)
      → HasPreamble input
  unfolding decode_request ◌>>=◌ ◌>>◌
  decode_request-HasPreamble input rest m e =
      let (u, body, passed, more) = bind_cases (decode_preamble input) _ e in
      decode_preamble-ok input body passed

  -- A response is only ever decoded from input that begins with the identity `MPCR` and version 1.
  pub decode_response-HasPreamble :
      (input rest : Bytes) (m : ResponseMessage)
      → decode_response input ≡ ok (m, rest)
      → HasPreamble input
  unfolding decode_response ◌>>=◌ ◌>>◌
  decode_response-HasPreamble input rest m e =
      let (u, body, passed, more) = bind_cases (decode_preamble input) _ e in
      decode_preamble-ok input body passed
