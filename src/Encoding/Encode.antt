-- ===== src/Encoding/Encode.antt =====
-- The `Encodable` implementations of protocol/src/encoding/v1/mod.rs and `encode` of
-- protocol/src/encoding/mod.rs. A `Noop` message meets `unreachable!()` after its kind is written.
use mpc_sdk_framework.Prelude.{◌%◌, ◌^◌, Option, none, some, true, false, length}
use mpc_sdk_framework.Messages.{
  HandshakeMessage, TransparentMessage, ServerMessage, OpaqueMessage, RequestMessage,
  ResponseMessage, MeetingState, SessionRequest, SessionState, Chunk, SealedEnvelope, SessionId,
  noop, initiator, responder, error, server_handshake, peer_handshake, new_meeting, meeting_created,
  join_meeting, meeting_ready, new_session, session_connection, session_created, session_ready,
  session_active, session_timeout, close_session, session_finished, server_message, peer_message,
  transparent, opaque,
}
use mpc_sdk_framework.Messages.Kinds.{
  handshake_kind, transparent_kind, server_kind, opaque_kind, request_kind, response_kind,
  encoding_kind,
}
use mpc_sdk_framework.Wire.{panic, BinaryStream}
use mpc_sdk_framework.Wire.Writer.{
  Writer, ◌>>◌, write_each, write_u8, write_u16, write_u32, write_bool, write_bytes, write_string,
}
use mpc_sdk_framework.Encoding.Buffers.{encode_buffer, encode_payload, encode_preamble}

module _ ⦃bin : BinaryStream⦄ where
  unfoldable pub encode_handshake_body : HandshakeMessage → Writer
  encode_handshake_body noop = panic
  encode_handshake_body (initiator len buf) = encode_payload len buf
  encode_handshake_body (responder len buf) = encode_payload len buf

  unfoldable pub encode_handshake : HandshakeMessage → Writer
  unfolding encode_handshake_body handshake_kind
  encode_handshake m = do write_u8 (handshake_kind m); encode_handshake_body m

  unfoldable pub encode_transparent_body : TransparentMessage → Writer
  encode_transparent_body noop = panic
  encode_transparent_body (error code message) = do write_u16 code; write_string message
  encode_transparent_body (server_handshake message) = encode_handshake message
  encode_transparent_body (peer_handshake key message) = do
    encode_buffer key
    encode_handshake message

  unfoldable pub encode_transparent : TransparentMessage → Writer
  unfolding encode_transparent_body transparent_kind
  encode_transparent m = do write_u8 (transparent_kind m); encode_transparent_body m

  unfoldable pub encode_meeting_state : MeetingState → Writer
  encode_meeting_state s = do
    write_bytes s.meeting_id
    write_u16 (length s.registered_participants % 2 ^ 16)
    write_each encode_buffer s.registered_participants

  unfoldable pub encode_session_request : SessionRequest → Writer
  encode_session_request s = do
    write_u16 (length s.participant_keys % 2 ^ 16)
    write_each encode_buffer s.participant_keys

  unfoldable pub encode_session_state : SessionState → Writer
  encode_session_state s = do
    write_bytes s.session_id
    write_u16 (length s.all_participants % 2 ^ 16)
    write_each encode_buffer s.all_participants

  unfoldable pub encode_server_body : ServerMessage → Writer
  encode_server_body noop = panic
  encode_server_body (error code message) = do write_u16 code; write_string message
  encode_server_body (new_meeting owner_id slots) = do
    write_bytes owner_id
    write_u32 (length slots % 2 ^ 32)
    write_each write_bytes slots
  encode_server_body (meeting_created state) = encode_meeting_state state
  encode_server_body (join_meeting meeting_id user_id) = do
    write_bytes meeting_id
    write_bytes user_id
  encode_server_body (meeting_ready state) = encode_meeting_state state
  encode_server_body (new_session request) = encode_session_request request
  encode_server_body (session_connection session_id peer_key) = do
    write_bytes session_id
    encode_buffer peer_key
  encode_server_body (session_created state) = encode_session_state state
  encode_server_body (session_ready state) = encode_session_state state
  encode_server_body (session_active state) = encode_session_state state
  encode_server_body (session_timeout session_id) = write_bytes session_id
  encode_server_body (close_session session_id) = write_bytes session_id
  encode_server_body (session_finished session_id) = write_bytes session_id

  unfoldable pub encode_server : ServerMessage → Writer
  unfolding encode_server_body server_kind
  encode_server m = do write_u8 (server_kind m); encode_server_body m

  unfoldable pub encode_chunk : Chunk → Writer
  encode_chunk c = encode_payload c.length c.contents

  unfoldable pub encode_envelope : SealedEnvelope → Writer
  unfolding encoding_kind
  encode_envelope e = do
    write_u8 (encoding_kind e.encoding)
    write_bool e.broadcast
    write_u32 (length e.chunks % 2 ^ 32)
    write_each encode_chunk e.chunks

  -- The flag and the identifier, then the envelope.
  unfoldable pub encode_peer_session : Option SessionId → Writer → Writer
  encode_peer_session none rest = do write_bool false; rest
  encode_peer_session (some id) rest = do write_bool true; write_bytes id; rest

  unfoldable pub encode_opaque_body : OpaqueMessage → Writer
  unfolding encode_peer_session
  encode_opaque_body noop = panic
  encode_opaque_body (server_message envelope) = encode_envelope envelope
  encode_opaque_body (peer_message key session_id envelope) = do
    encode_buffer key
    encode_peer_session session_id (encode_envelope envelope)

  unfoldable pub encode_opaque : OpaqueMessage → Writer
  unfolding encode_opaque_body opaque_kind
  encode_opaque m = do write_u8 (opaque_kind m); encode_opaque_body m

  unfoldable pub encode_request_body : RequestMessage → Writer
  encode_request_body noop = panic
  encode_request_body (transparent message) = encode_transparent message
  encode_request_body (opaque message) = encode_opaque message

  unfoldable pub encode_request : RequestMessage → Writer
  unfolding encode_request_body request_kind
  encode_request m = do encode_preamble; write_u8 (request_kind m); encode_request_body m

  unfoldable pub encode_response_body : ResponseMessage → Writer
  encode_response_body noop = panic
  encode_response_body (transparent message) = encode_transparent message
  encode_response_body (opaque message) = encode_opaque message

  unfoldable pub encode_response : ResponseMessage → Writer
  unfolding encode_response_body response_kind
  encode_response m = do encode_preamble; write_u8 (response_kind m); encode_response_body m
