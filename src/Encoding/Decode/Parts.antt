-- ===== src/Encoding/Decode/Parts.antt =====
-- Decoding what the messages of protocol/src/encoding/v1/mod.rs are made of: identifiers, handshakes,
-- envelopes and states.
use mpc_sdk_framework.Prelude.{ℕ, List, ◌==◌, nat_eq, list_eq, if◌then◌else◌}
use mpc_sdk_framework.Types
use mpc_sdk_framework.Messages.{
  Bytes, HandshakeMessage, Encoding, MeetingState, SessionRequest, SessionState, Chunk,
  SealedEnvelope, UserId, Uuid, initiator, responder, blob, json,
}
use mpc_sdk_framework.Wire.{encoding_kind, BinaryStream}
use mpc_sdk_framework.Wire.Reader.{
  Reader, ◌>>=◌, pure, fail, read_each, into_array, try_into_array, read_u8, read_u16, read_u32,
  read_bool, read_bytes,
}
use mpc_sdk_framework.Encoding.Buffers.{decode_buffer, decode_payload}

unfoldable pub decode_encoding : ℕ → Reader Encoding
decode_encoding id =
    if id == Types.encoding_blob
    then pure blob
    else if id == Types.encoding_json
    then pure json
    else fail (encoding_kind id)

module _ ⦃bin : BinaryStream⦄ where
  unfoldable pub read_uuid : Reader Uuid
  read_uuid = do bs ← read_bytes 16; try_into_array 16 bs

  unfoldable pub read_user_id : Reader UserId
  read_user_id = do bs ← read_bytes 32; into_array 32 bs

  unfoldable pub decode_handshake_body : ℕ → Reader HandshakeMessage
  decode_handshake_body id =
      if id == Types.handshake_initiator
      then (do (len, buf) ← decode_payload; pure (initiator len buf))
      else if id == Types.handshake_responder
      then (do (len, buf) ← decode_payload; pure (responder len buf))
      else fail (encoding_kind id)

  unfoldable pub decode_handshake : Reader HandshakeMessage
  unfolding decode_handshake_body
  decode_handshake = do id ← read_u8; decode_handshake_body id

  unfoldable pub decode_chunk : Reader Chunk
  decode_chunk = do
    (len, contents) ← decode_payload
    pure (record { length = len; contents = contents })

  unfoldable pub decode_envelope : Reader SealedEnvelope
  unfolding decode_encoding decode_chunk
  decode_envelope = do
    id ← read_u8
    encoding ← decode_encoding id
    broadcast ← read_bool
    num_chunks ← read_u32
    chunks ← read_each num_chunks decode_chunk
    pure (record { encoding = encoding; chunks = chunks; broadcast = broadcast })

  -- A count of keys, then the keys.
  unfoldable pub decode_keys : Reader (List Bytes)
  decode_keys = do size ← read_u16; read_each size decode_buffer

  unfoldable pub decode_session_request : Reader SessionRequest
  unfolding decode_keys
  decode_session_request = do keys ← decode_keys; pure (record { participant_keys = keys })

  unfoldable pub decode_meeting_state : Reader MeetingState
  unfolding decode_keys read_uuid
  decode_meeting_state = do
    id ← read_uuid
    keys ← decode_keys
    pure (record { meeting_id = id; registered_participants = keys })

  unfoldable pub decode_session_state : Reader SessionState
  unfolding decode_keys read_uuid
  decode_session_state = do
    id ← read_uuid
    keys ← decode_keys
    pure (record { session_id = id; all_participants = keys })
