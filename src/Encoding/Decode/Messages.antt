-- ===== src/Encoding/Decode/Messages.antt =====
-- Decoding transparent and opaque messages, requests and responses of
-- protocol/src/encoding/v1/mod.rs.
use mpc_sdk_framework.Prelude.{ℕ, Option, none, some, Bool, ◌==◌, nat_eq, list_eq, if◌then◌else◌}
use mpc_sdk_framework.Types
use mpc_sdk_framework.Messages.{
  Bytes, TransparentMessage, OpaqueMessage, RequestMessage, ResponseMessage, SessionId,
  server_handshake, peer_handshake, server_message, peer_message,
}
use mpc_sdk_framework.Wire.{Result, ok, err, panic, encoding_kind, BinaryStream}
use mpc_sdk_framework.Wire.Reader.{Reader, ◌>>=◌, ◌>>◌, pure, fail, read_u8, read_bool}
use mpc_sdk_framework.Encoding.Buffers.{decode_buffer, decode_preamble}
use mpc_sdk_framework.Encoding.Decode.Parts.{read_uuid, decode_handshake, decode_envelope}
use mpc_sdk_framework.Encoding.Decode.Server.{decode_error}

module _ ⦃bin : BinaryStream⦄ where
  unfoldable pub decode_peer_handshake : Reader TransparentMessage
  decode_peer_handshake = do
    public_key ← decode_buffer
    message ← decode_handshake
    pure (peer_handshake public_key message)

  unfoldable pub decode_transparent_body : ℕ → Reader TransparentMessage
  unfolding decode_error decode_peer_handshake
  decode_transparent_body id =
      if id == Types.error
      then (do (code, message) ← decode_error; pure (TransparentMessage.error code message))
      else if id == Types.handshake_server
      then (do message ← decode_handshake; pure (server_handshake message))
      else if id == Types.handshake_peer
      then decode_peer_handshake
      else fail (encoding_kind id)

  unfoldable pub decode_transparent : Reader TransparentMessage
  unfolding decode_transparent_body
  decode_transparent = do id ← read_u8; decode_transparent_body id

  unfoldable pub decode_session_id : Bool → Reader (Option SessionId)
  decode_session_id has_session_id =
      if has_session_id then (do id ← read_uuid; pure (some id)) else pure none

  unfoldable pub decode_peer_message : Reader OpaqueMessage
  unfolding decode_session_id
  decode_peer_message = do
    public_key ← decode_buffer
    has_session_id ← read_bool
    session_id ← decode_session_id has_session_id
    envelope ← decode_envelope
    pure (peer_message public_key session_id envelope)

  unfoldable pub decode_opaque_body : ℕ → Reader OpaqueMessage
  unfolding decode_peer_message
  decode_opaque_body id =
      if id == Types.opaque_server
      then (do envelope ← decode_envelope; pure (server_message envelope))
      else if id == Types.opaque_peer
      then decode_peer_message
      else fail (encoding_kind id)

  unfoldable pub decode_opaque : Reader OpaqueMessage
  unfolding decode_opaque_body
  decode_opaque = do id ← read_u8; decode_opaque_body id

  unfoldable pub decode_request_body : ℕ → Reader RequestMessage
  decode_request_body id =
      if id == Types.transparent
      then (do message ← decode_transparent; pure (RequestMessage.transparent message))
      else if id == Types.opaque
      then (do message ← decode_opaque; pure (RequestMessage.opaque message))
      else fail (encoding_kind id)

  unfoldable pub decode_request : Reader RequestMessage
  unfolding decode_request_body
  decode_request = do decode_preamble; id ← read_u8; decode_request_body id

  unfoldable pub decode_response_body : ℕ → Reader ResponseMessage
  decode_response_body id =
      if id == Types.transparent
      then (do message ← decode_transparent; pure (ResponseMessage.transparent message))
      else if id == Types.opaque
      then (do message ← decode_opaque; pure (ResponseMessage.opaque message))
      else fail (encoding_kind id)

  unfoldable pub decode_response : Reader ResponseMessage
  unfolding decode_response_body
  decode_response = do decode_preamble; id ← read_u8; decode_response_body id

-- `decode`: the message at the front of a buffer.
unfoldable pub first {ℓ} : {A : Type ℓ} → Result (A × Bytes) → Result A
first (ok (a, rest)) = ok a
first (err e) = err e
first panic = panic

unfoldable pub decode {ℓ} : {A : Type ℓ} → Reader A → Bytes → Result A
unfolding first
decode r buffer = first (r buffer)
