-- ===== src/Messages.antt =====
-- The messages of protocol/src/protocol.rs. A string is its UTF-8 bytes, an identifier (uuid, user
-- identifier) its 16 or 32 bytes, a status code its number. A hash set is its elements in the order
-- in which it would be iterated.
pub mod Kinds
use mpc_sdk_framework.Prelude.{ℕ, Bool, List, Option}

abbrev pub Bytes : Type 0
Bytes = List ℕ

abbrev pub Uuid : Type 0
Uuid = Bytes

abbrev pub MeetingId : Type 0
MeetingId = Uuid

abbrev pub SessionId : Type 0
SessionId = Uuid

abbrev pub UserId : Type 0
UserId = Bytes

pub data HandshakeMessage : Type 0 where
  noop : HandshakeMessage
  initiator responder : ℕ → Bytes → HandshakeMessage

pub data TransparentMessage : Type 0 where
  noop : TransparentMessage
  error : ℕ → Bytes → TransparentMessage
  server_handshake : HandshakeMessage → TransparentMessage
  peer_handshake : Bytes → HandshakeMessage → TransparentMessage

pub record MeetingState : Type 0 where
  pub meeting_id : MeetingId
  pub registered_participants : List Bytes

pub record SessionRequest : Type 0 where
  pub participant_keys : List Bytes

pub record SessionState : Type 0 where
  pub session_id : SessionId
  pub all_participants : List Bytes

pub data ServerMessage : Type 0 where
  noop : ServerMessage
  error : ℕ → Bytes → ServerMessage
  new_meeting : UserId → List UserId → ServerMessage
  meeting_created : MeetingState → ServerMessage
  join_meeting : MeetingId → UserId → ServerMessage
  meeting_ready : MeetingState → ServerMessage
  new_session : SessionRequest → ServerMessage
  session_connection : SessionId → Bytes → ServerMessage
  session_created session_ready session_active : SessionState → ServerMessage
  session_timeout close_session session_finished : SessionId → ServerMessage

pub data Encoding : Type 0 where
  noop blob json : Encoding

pub record Chunk : Type 0 where
  pub length : ℕ
  pub contents : Bytes

pub record SealedEnvelope : Type 0 where
  pub encoding : Encoding
  pub chunks : List Chunk
  pub broadcast : Bool

pub data OpaqueMessage : Type 0 where
  noop : OpaqueMessage
  server_message : SealedEnvelope → OpaqueMessage
  peer_message : Bytes → Option SessionId → SealedEnvelope → OpaqueMessage

pub data RequestMessage : Type 0 where
  noop : RequestMessage
  transparent : TransparentMessage → RequestMessage
  opaque : OpaqueMessage → RequestMessage

pub data ResponseMessage : Type 0 where
  noop : ResponseMessage
  transparent : TransparentMessage → ResponseMessage
  opaque : OpaqueMessage → ResponseMessage
