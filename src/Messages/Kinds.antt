-- ===== src/Messages/Kinds.antt =====
-- The `From<&…> for u8` implementations of protocol/src/protocol.rs: the byte that stands for each
-- kind of message on the wire.
use mpc_sdk_framework.Prelude.{ℕ}
use mpc_sdk_framework.Types
use mpc_sdk_framework.Messages.{
  HandshakeMessage, TransparentMessage, ServerMessage, OpaqueMessage, RequestMessage,
  ResponseMessage, Encoding, noop, initiator, responder, error, server_handshake, peer_handshake,
  new_meeting, meeting_created, join_meeting, meeting_ready, new_session, session_connection,
  session_created, session_ready, session_active, session_timeout, close_session, session_finished,
  blob, json, server_message, peer_message, transparent, opaque,
}

unfoldable pub handshake_kind : HandshakeMessage → ℕ
handshake_kind noop = Types.noop
handshake_kind (initiator len buf) = Types.handshake_initiator
handshake_kind (responder len buf) = Types.handshake_responder

unfoldable pub transparent_kind : TransparentMessage → ℕ
transparent_kind noop = Types.noop
transparent_kind (error code message) = Types.error
transparent_kind (server_handshake message) = Types.handshake_server
transparent_kind (peer_handshake key message) = Types.handshake_peer

unfoldable pub server_kind : ServerMessage → ℕ
server_kind noop = Types.noop
server_kind (error code message) = Types.error
server_kind (new_meeting owner slots) = Types.meeting_new
server_kind (meeting_created state) = Types.meeting_created
server_kind (join_meeting meeting user) = Types.meeting_join
server_kind (meeting_ready state) = Types.meeting_ready
server_kind (new_session request) = Types.session_new
server_kind (session_connection session key) = Types.session_connection
server_kind (session_created state) = Types.session_created
server_kind (session_ready state) = Types.session_ready
server_kind (session_active state) = Types.session_active
server_kind (session_timeout session) = Types.session_timeout
server_kind (close_session session) = Types.session_close
server_kind (session_finished session) = Types.session_finished

unfoldable pub opaque_kind : OpaqueMessage → ℕ
opaque_kind noop = Types.noop
opaque_kind (server_message envelope) = Types.opaque_server
opaque_kind (peer_message key session envelope) = Types.opaque_peer

unfoldable pub request_kind : RequestMessage → ℕ
request_kind noop = Types.noop
request_kind (transparent message) = Types.transparent
request_kind (opaque message) = Types.opaque

unfoldable pub response_kind : ResponseMessage → ℕ
response_kind noop = Types.noop
response_kind (transparent message) = Types.transparent
response_kind (opaque message) = Types.opaque

unfoldable pub encoding_kind : Encoding → ℕ
encoding_kind noop = Types.noop
encoding_kind blob = Types.encoding_blob
encoding_kind json = Types.encoding_json
