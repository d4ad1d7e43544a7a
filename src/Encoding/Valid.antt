-- ===== src/Encoding/Valid.antt =====
-- Which messages the encoding of protocol/src/encoding/v1/mod.rs carries: no `Noop`, identifiers of
-- their length, texts in UTF-8 and status codes that `http` accepts, sizes that fit their prefix.
use mpc_sdk_framework.Prelude.{
  ℕ, ◌^◌, ◌≤◌, ◌<◌, ◌≡◌, true, false, List, [], ◌∷◌, ◌++◌, Option, none, some, length, All,
  contains, list_eq, nat_eq,
}
use mpc_sdk_framework.Types
use mpc_sdk_framework.Messages.{
  Bytes, UserId, HandshakeMessage, TransparentMessage, ServerMessage, OpaqueMessage, RequestMessage,
  ResponseMessage, Encoding, MeetingState, SessionState, Chunk, SealedEnvelope, noop, initiator,
  responder, error, server_handshake, peer_handshake, new_meeting, meeting_created, join_meeting,
  meeting_ready, new_session, session_connection, session_created, session_ready, session_active,
  session_timeout, close_session, session_finished, server_message, peer_message, transparent,
  opaque, blob, json,
}
use mpc_sdk_framework.Wire.{BinaryStream}
use mpc_sdk_framework.Encoding.Buffers.Laws.{IsBuffer}

abbrev pub IsUuid : Bytes → Type 0
IsUuid id = length id ≡ 16

abbrev pub IsUserId : Bytes → Type 0
IsUserId id = length id ≡ 32

-- At most 65535 keys, each within the limit of a buffer.
abbrev pub AreKeys : List Bytes → Type 0
AreKeys keys = (length keys < 2 ^ 16) × All IsBuffer keys

-- No element stands in `seen` or earlier in the list.
abbrev pub AllNew : List UserId → List UserId → Type 0
AllNew seen [] = Unit {0}
AllNew seen (x ∷ xs) = (contains x seen ≡ false) × AllNew (seen ++ x ∷ []) xs

-- The elements of a hash set: no two are equal.
abbrev pub AreSlots : List UserId → Type 0
AreSlots slots = (length slots < 2 ^ 32) × All IsUserId slots × AllNew [] slots

abbrev pub IsHandshake : HandshakeMessage → Type 0
IsHandshake noop = ⊥
IsHandshake (initiator len buf) = (len ≤ Types.max_buffer_size) × IsBuffer buf
IsHandshake (responder len buf) = (len ≤ Types.max_buffer_size) × IsBuffer buf

abbrev pub IsMeetingState : MeetingState → Type 0
IsMeetingState s = IsUuid s.meeting_id × AreKeys s.registered_participants

abbrev pub IsSessionState : SessionState → Type 0
IsSessionState s = IsUuid s.session_id × AreKeys s.all_participants

abbrev pub IsEncoding : Encoding → Type 0
IsEncoding noop = ⊥
IsEncoding blob = Unit {0}
IsEncoding json = Unit {0}

abbrev pub IsChunk : Chunk → Type 0
IsChunk c = (c.length ≤ Types.max_buffer_size) × IsBuffer c.contents

abbrev pub IsEnvelope : SealedEnvelope → Type 0
IsEnvelope e = IsEncoding e.encoding × (length e.chunks < 2 ^ 32) × All IsChunk e.chunks

abbrev pub IsOptionalUuid : Option Bytes → Type 0
IsOptionalUuid none = Unit {0}
IsOptionalUuid (some id) = IsUuid id

abbrev pub IsOpaque : OpaqueMessage → Type 0
IsOpaque noop = ⊥
IsOpaque (server_message envelope) = IsEnvelope envelope
IsOpaque (peer_message key session_id envelope) =
    IsBuffer key × IsOptionalUuid session_id × IsEnvelope envelope

module _ ⦃bin : BinaryStream⦄ where
  abbrev pub IsErrorText : ℕ → Bytes → Type 0
  IsErrorText code message =
      (code < 2 ^ 16)
      × (bin.is_status_code code ≡ true)
      × (bin.is_utf8 message ≡ true)
      × (length message ≤ Types.max_buffer_size)

  abbrev pub IsTransparent : TransparentMessage → Type 0
  IsTransparent noop = ⊥
  IsTransparent (error code message) = IsErrorText code message
  IsTransparent (server_handshake message) = IsHandshake message
  IsTransparent (peer_handshake key message) = IsBuffer key × IsHandshake message

  abbrev pub IsServer : ServerMessage → Type 0
  IsServer noop = ⊥
  IsServer (error code message) = IsErrorText code message
  IsServer (new_meeting owner_id slots) = IsUserId owner_id × AreSlots slots
  IsServer (meeting_created state) = IsMeetingState state
  IsServer (join_meeting meeting_id user_id) = IsUuid meeting_id × IsUserId user_id
  IsServer (meeting_ready state) = IsMeetingState state
  IsServer (new_session request) = AreKeys request.participant_keys
  IsServer (session_connection session_id peer_key) = IsUuid session_id × IsBuffer peer_key
  IsServer (session_created state) = IsSessionState state
  IsServer (session_ready state) = IsSessionState state
  IsServer (session_active state) = IsSessionState state
  IsServer (session_timeout session_id) = IsUuid session_id
  IsServer (close_session session_id) = IsUuid session_id
  IsServer (session_finished session_id) = IsUuid session_id

  abbrev pub IsRequest : RequestMessage → Type 0
  IsRequest noop = ⊥
  IsRequest (transparent message) = IsTransparent message
  IsRequest (opaque message) = IsOpaque message

  abbrev pub IsResponse : ResponseMessage → Type 0
  IsResponse noop = ⊥
  IsResponse (transparent message) = IsTransparent message
  IsResponse (opaque message) = IsOpaque message
