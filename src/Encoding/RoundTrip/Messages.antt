-- ===== src/Encoding/RoundTrip/Messages.antt =====
-- The messages of protocol/src/encoding/v1/mod.rs that travel on their own, there and back: requests,
-- responses and server messages.
use mpc_sdk_framework.Prelude.{◌≡◌, refl, true, false, Option, none, some, ◌++◌, arith}
use mpc_sdk_framework.Messages.{
  Bytes, SessionId, SealedEnvelope, TransparentMessage, ServerMessage, OpaqueMessage,
  RequestMessage, ResponseMessage, noop, error, server_handshake, peer_handshake, server_message,
  peer_message, transparent, opaque,
}
use mpc_sdk_framework.Wire.{BinaryStream, ok}
use mpc_sdk_framework.Wire.Reader.{◌>>=◌, read_bool, pure}
use mpc_sdk_framework.Wire.Carries.{
  Carries, IsFaithful, carries-then, carries-known, carries-return, carries-first,
}
use mpc_sdk_framework.Encoding.Buffers.Laws.{buffer-carries, preamble-carries}
use mpc_sdk_framework.Encoding.Encode.{
  encode_transparent, encode_opaque, encode_request, encode_response, encode_server,
  encode_peer_session, encode_envelope,
}
use mpc_sdk_framework.Encoding.Decode.{
  decode_transparent, decode_opaque, decode_request, decode_response, decode_server,
  decode_session_id, decode_envelope, decode,
}
use mpc_sdk_framework.Encoding.Valid.{
  IsTransparent, IsOpaque, IsOptionalUuid, IsEnvelope, IsRequest, IsResponse, IsServer,
}
use mpc_sdk_framework.Encoding.RoundTrip.Parts.{uuid-carries, handshake-carries, envelope-carries}
use mpc_sdk_framework.Encoding.RoundTrip.Server.{error-carries, server-carries}

module _ ⦃bin : BinaryStream⦄ (faithful : IsFaithful bin) where
  open faithful use {u8_carries, bool_carries}

  transparent-carries :
      (m : TransparentMessage)
      → IsTransparent m
      → Carries (encode_transparent m) decode_transparent m
  unfolding encode_transparent decode_transparent
  transparent-carries noop h = absurd h
  transparent-carries (error code message) h =
      carries-then _ (u8_carries 255 (omega arith))
        (carries-return _ _ refl (error-carries faithful code message h))
  transparent-carries (server_handshake message) h =
      carries-then _ (u8_carries 1 (omega arith))
        (carries-return _ _ refl (handshake-carries faithful message h))
  transparent-carries (peer_handshake key message) h = carries-then _ (u8_carries 2 (omega arith)) (
      carries-then _ (buffer-carries faithful key h.0)
        (carries-return _ _ refl (handshake-carries faithful message h.1)))

  -- The optional session of a peer message, and its envelope.
  peer_session-carries :
      (key : Bytes) (session_id : Option SessionId) (e : SealedEnvelope)
      → IsOptionalUuid session_id
      → IsEnvelope e
      → Carries
          (encode_peer_session session_id (encode_envelope e))
          (read_bool >>= λ has_session_id. decode_session_id has_session_id >>= λ id.
            decode_envelope >>= λ envelope. pure (peer_message key id envelope))
          (peer_message key session_id e)
  unfolding encode_peer_session decode_session_id
  peer_session-carries key none e s h =
      carries-then _ (bool_carries false)
        (carries-known none _ (carries-return _ _ refl (envelope-carries faithful e h)))
  peer_session-carries key (some id) e s h = carries-then _ (bool_carries true) (
      carries-then _ (carries-return _ _ refl (uuid-carries faithful id s))
        (carries-return _ _ refl (envelope-carries faithful e h)))

  opaque-carries : (m : OpaqueMessage) → IsOpaque m → Carries (encode_opaque m) decode_opaque m
  unfolding encode_opaque decode_opaque
  opaque-carries noop h = absurd h
  opaque-carries (server_message envelope) h =
      carries-then _ (u8_carries 1 (omega arith))
        (carries-return _ _ refl (envelope-carries faithful envelope h))
  opaque-carries (peer_message key session_id envelope) h =
      carries-then _ (u8_carries 2 (omega arith)) (
        carries-then _ (buffer-carries faithful key h.0)
          (peer_session-carries key session_id envelope h.1 h.2))

  -- Over primitives that keep the laws of `IsFaithful`, every valid request is encoded without an
  -- error, and decoding the bytes, with any input behind them, gives the request back and leaves
  -- that input.
  pub decode_request-encode_request :
      (m : RequestMessage) → IsRequest m → Carries (encode_request m) decode_request m
  unfolding encode_request decode_request
  decode_request-encode_request noop h = absurd h
  decode_request-encode_request (transparent message) h =
      carries-first (preamble-carries faithful) (
        carries-then _ (u8_carries 128 (omega arith))
          (carries-return _ _ refl (transparent-carries message h)))
  decode_request-encode_request (opaque message) h = carries-first (preamble-carries faithful) (
      carries-then _ (u8_carries 129 (omega arith))
        (carries-return _ _ refl (opaque-carries message h)))

  -- Over primitives that keep the laws of `IsFaithful`, every valid response is encoded without an
  -- error, and decoding the bytes, with any input behind them, gives the response back and leaves
  -- that input.
  pub decode_response-encode_response :
      (m : ResponseMessage) → IsResponse m → Carries (encode_response m) decode_response m
  unfolding encode_response decode_response
  decode_response-encode_response noop h = absurd h
  decode_response-encode_response (transparent message) h =
      carries-first (preamble-carries faithful) (
        carries-then _ (u8_carries 128 (omega arith))
          (carries-return _ _ refl (transparent-carries message h)))
  decode_response-encode_response (opaque message) h = carries-first (preamble-carries faithful) (
      carries-then _ (u8_carries 129 (omega arith))
        (carries-return _ _ refl (opaque-carries message h)))

  -- Over primitives that keep the laws of `IsFaithful`, every valid server message is encoded
  -- without an error, and `decode` gives it back from the bytes, also if other bytes follow.
  pub decode_server-encode_server :
      (m : ServerMessage)
      → IsServer m
      → (bytes : Bytes) × (encode_server m ≡ ok bytes)
        × ((rest : Bytes) → decode decode_server (bytes ++ rest) ≡ ok m)
  unfolding decode
  decode_server-encode_server m h =
      let c = server-carries faithful m h in (c.bytes, c.written, λ rest. rw (c.reads rest))
