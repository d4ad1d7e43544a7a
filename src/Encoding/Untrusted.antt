-- ===== src/Encoding/Untrusted.antt =====
-- The decoders of protocol/src/encoding/v1/mod.rs on bytes that nobody vouches for: the service
-- decodes what any client sends.
use mpc_sdk_framework.Prelude.{ℕ, zero, suc, List, ◌≢◌, nat_eq, list_eq, set_insert}
use mpc_sdk_framework.Messages.{Bytes, UserId}
use mpc_sdk_framework.Wire.{BinaryStream, panic}
use mpc_sdk_framework.Wire.Carries.{IsFaithful}
use mpc_sdk_framework.Wire.NoPanic.{
  NoPanic, pure-NoPanic, fail-NoPanic, bind-NoPanic, then-NoPanic, if-NoPanic, each-NoPanic,
  try_into_array-NoPanic, try_into_status-NoPanic, read_u8-NoPanic, read_u16-NoPanic,
  read_u32-NoPanic, read_bool-NoPanic, read_string-NoPanic, read_bytes-NoPanic, array-NoPanic,
}
use mpc_sdk_framework.Encoding.Buffers.{
  decode_buffer, decode_payload, check_identity, check_version, decode_preamble,
}
use mpc_sdk_framework.Encoding.Decode.{
  read_uuid, read_user_id, decode_handshake, decode_chunk, decode_encoding, decode_envelope,
  decode_keys, decode_meeting_state, decode_session_state, decode_session_request, read_slots,
  decode_error, decode_server_body, decode_server, decode_peer_handshake, decode_transparent_body,
  decode_transparent, decode_peer_message, decode_opaque_body, decode_opaque, decode_request,
  decode_response,
}

ruleset no_panic = (
  pure-NoPanic, fail-NoPanic, bind-NoPanic, then-NoPanic, if-NoPanic, each-NoPanic, read_u8-NoPanic,
  read_u16-NoPanic, read_u32-NoPanic, read_bool-NoPanic, read_string-NoPanic, read_bytes-NoPanic,
  try_into_array-NoPanic, try_into_status-NoPanic,
)

check_identity-NoPanic : (bs : Bytes) → NoPanic (check_identity bs)
unfolding check_identity
check_identity-NoPanic bs = if-NoPanic _ (pure-NoPanic _) (fail-NoPanic _)

check_version-NoPanic : (n : ℕ) → NoPanic (check_version n)
unfolding check_version
check_version-NoPanic n = if-NoPanic _ (pure-NoPanic _) (fail-NoPanic _)

decode_encoding-NoPanic : (id : ℕ) → NoPanic (decode_encoding id)
unfolding decode_encoding
decode_encoding-NoPanic id = search no_panic depth 8

module _ ⦃bin : BinaryStream⦄ where
  buffer-NoPanic : NoPanic decode_buffer
  unfolding decode_buffer
  buffer-NoPanic = search no_panic

  payload-NoPanic : NoPanic decode_payload
  unfolding decode_payload
  payload-NoPanic = search (no_panic, buffer-NoPanic) depth 8

  handshake-NoPanic : NoPanic decode_handshake
  unfolding decode_handshake
  handshake-NoPanic = search (no_panic, payload-NoPanic) depth 9

  chunk-NoPanic : NoPanic decode_chunk
  unfolding decode_chunk
  chunk-NoPanic = search (no_panic, payload-NoPanic) depth 9

  envelope-NoPanic : NoPanic decode_envelope
  unfolding decode_envelope
  envelope-NoPanic = search (no_panic, chunk-NoPanic) depth 12

  uuid-NoPanic : NoPanic read_uuid
  unfolding read_uuid
  uuid-NoPanic = search no_panic

  keys-NoPanic : NoPanic decode_keys
  unfolding decode_keys
  keys-NoPanic = search (no_panic, buffer-NoPanic)

  meeting_state-NoPanic : NoPanic decode_meeting_state
  unfolding decode_meeting_state
  meeting_state-NoPanic = search (no_panic, buffer-NoPanic) depth 9

  session_state-NoPanic : NoPanic decode_session_state
  unfolding decode_session_state
  session_state-NoPanic = search (no_panic, buffer-NoPanic) depth 9

  session_request-NoPanic : NoPanic decode_session_request
  unfolding decode_session_request
  session_request-NoPanic = search (no_panic, buffer-NoPanic) depth 9

  error-NoPanic : NoPanic decode_error
  unfolding decode_error
  error-NoPanic = search no_panic depth 9

  peer_handshake-NoPanic : NoPanic decode_peer_handshake
  unfolding decode_peer_handshake
  peer_handshake-NoPanic = search (no_panic, buffer-NoPanic, handshake-NoPanic) depth 9

  peer_message-NoPanic : NoPanic decode_peer_message
  unfolding decode_peer_message
  peer_message-NoPanic = search (no_panic, buffer-NoPanic, uuid-NoPanic, envelope-NoPanic) depth 12

  preamble-NoPanic : NoPanic decode_preamble
  unfolding decode_preamble
  preamble-NoPanic = search (no_panic, check_identity-NoPanic, check_version-NoPanic) depth 9

  transparent_body-NoPanic : (id : ℕ) → NoPanic (decode_transparent_body id)
  unfolding decode_transparent_body
  transparent_body-NoPanic id =
      search (no_panic, error-NoPanic, handshake-NoPanic, peer_handshake-NoPanic) depth 12

  opaque_body-NoPanic : (id : ℕ) → NoPanic (decode_opaque_body id)
  unfolding decode_opaque_body
  opaque_body-NoPanic id = search (no_panic, envelope-NoPanic, peer_message-NoPanic) depth 12

  slots-NoPanic : IsFaithful bin → (n : ℕ) (slots : List UserId) → NoPanic (read_slots n slots)
  unfolding read_slots read_user_id
  slots-NoPanic faithful zero slots = pure-NoPanic _
  slots-NoPanic faithful (suc n) slots =
      bind-NoPanic (array-NoPanic faithful 32)
        λ slot. slots-NoPanic faithful n (set_insert slot slots)

  server_body-NoPanic : IsFaithful bin → (id : ℕ) → NoPanic (decode_server_body id)
  unfolding decode_server_body read_user_id
  server_body-NoPanic faithful id =
      search
        (
          no_panic,
          error-NoPanic,
          meeting_state-NoPanic,
          session_state-NoPanic,
          uuid-NoPanic,
          session_request-NoPanic,
          buffer-NoPanic,
          slots-NoPanic faithful,
          array-NoPanic faithful,
        )
        depth 20

  request-NoPanic : NoPanic decode_request
  unfolding decode_request decode_transparent decode_opaque
  request-NoPanic =
      search (no_panic, preamble-NoPanic, transparent_body-NoPanic, opaque_body-NoPanic) depth 12

  response-NoPanic : NoPanic decode_response
  unfolding decode_response decode_transparent decode_opaque
  response-NoPanic =
      search (no_panic, preamble-NoPanic, transparent_body-NoPanic, opaque_body-NoPanic) depth 12

  server-NoPanic : IsFaithful bin → NoPanic decode_server
  unfolding decode_server
  server-NoPanic faithful = bind-NoPanic read_u8-NoPanic (server_body-NoPanic faithful)

  -- Over primitives that keep the laws of `IsFaithful`, decoding a request, a response or a server
  -- message never panics, whatever the bytes are.
  pub decode-ne-panic :
      (buffer : Bytes)
      → IsFaithful bin
      → (decode_request buffer ≢ panic)
        × (decode_response buffer ≢ panic)
        × (decode_server buffer ≢ panic)
  decode-ne-panic buffer faithful = (
    request-NoPanic.apply buffer,
    response-NoPanic.apply buffer,
    (server-NoPanic faithful).apply buffer,
  )
