-- ===== src/Encoding/Decode/Server.antt =====
-- Decoding a `ServerMessage` of protocol/src/encoding/v1/mod.rs.
use mpc_sdk_framework.Prelude.{
  ℕ, zero, suc, List, [], ◌==◌, nat_eq, list_eq, if◌then◌else◌, set_insert,
}
use mpc_sdk_framework.Types
use mpc_sdk_framework.Messages.{
  Bytes, ServerMessage, UserId, new_meeting, meeting_created, join_meeting, meeting_ready,
  new_session, session_connection, session_created, session_ready, session_active, session_timeout,
  close_session, session_finished,
}
use mpc_sdk_framework.Wire.{encoding_kind, BinaryStream}
use mpc_sdk_framework.Wire.Reader.{
  Reader, ◌>>=◌, pure, fail, try_into_status, read_u8, read_u16, read_u32, read_string,
}
use mpc_sdk_framework.Encoding.Buffers.{decode_buffer}
use mpc_sdk_framework.Encoding.Decode.Parts.{
  read_uuid, read_user_id, decode_meeting_state, decode_session_state, decode_session_request,
}

module _ ⦃bin : BinaryStream⦄ where
  -- The loop that fills the set of slots.
  unfoldable pub read_slots : ℕ → List UserId → Reader (List UserId)
  read_slots zero slots = pure slots
  read_slots (suc n) slots = do slot ← read_user_id; read_slots n (set_insert slot slots)

  -- A code and a message, for both kinds of `Error`.
  unfoldable pub decode_error : Reader (ℕ × Bytes)
  decode_error = do
    code ← read_u16
    code ← try_into_status code
    message ← read_string
    pure (code, message)

  unfoldable pub decode_new_meeting : Reader ServerMessage
  unfolding read_slots
  decode_new_meeting = do
    owner_id ← read_user_id
    num_slots ← read_u32
    slots ← read_slots num_slots []
    pure (new_meeting owner_id slots)

  unfoldable pub decode_join_meeting : Reader ServerMessage
  decode_join_meeting = do
    meeting_id ← read_uuid
    user_id ← read_user_id
    pure (join_meeting meeting_id user_id)

  unfoldable pub decode_session_connection : Reader ServerMessage
  decode_session_connection = do
    session_id ← read_uuid
    peer_key ← decode_buffer
    pure (session_connection session_id peer_key)

  unfoldable pub decode_server_body : ℕ → Reader ServerMessage
  unfolding decode_error decode_new_meeting decode_join_meeting decode_session_connection
  decode_server_body id =
      if id == Types.error
      then (do (code, message) ← decode_error; pure (ServerMessage.error code message))
      else if id == Types.meeting_new
      then decode_new_meeting
      else if id == Types.meeting_created
      then (do state ← decode_meeting_state; pure (meeting_created state))
      else if id == Types.meeting_join
      then decode_join_meeting
      else if id == Types.meeting_ready
      then (do state ← decode_meeting_state; pure (meeting_ready state))
      else if id == Types.session_new
      then (do request ← decode_session_request; pure (new_session request))
      else if id == Types.session_connection
      then decode_session_connection
      else if id == Types.session_created
      then (do state ← decode_session_state; pure (session_created state))
      else if id == Types.session_ready
      then (do state ← decode_session_state; pure (session_ready state))
      else if id == Types.session_active
      then (do state ← decode_session_state; pure (session_active state))
      else if id == Types.session_timeout
      then (do session ← read_uuid; pure (session_timeout session))
      else if id == Types.session_close
      then (do session ← read_uuid; pure (close_session session))
      else if id == Types.session_finished
      then (do session ← read_uuid; pure (session_finished session))
      else fail (encoding_kind id)

  unfoldable pub decode_server : Reader ServerMessage
  unfolding decode_server_body
  decode_server = do id ← read_u8; decode_server_body id
