-- ===== src/Client/Calls.antt =====
-- The operations of client/src/client.rs.
use mpc_sdk_framework.Prelude.{
  ℕ, Bool, true, false, List, [], ◌∷◌, Option, none, some, get, insert, nat_eq, list_eq, length,
}
use mpc_sdk_framework.Messages.{
  Bytes, SessionId, MeetingId, UserId, Encoding, ServerMessage, RequestMessage, blob, json,
  server_message, server_handshake, peer_handshake, initiator, new_meeting as new_meeting_message,
  join_meeting as join_message, new_session as new_session_message, session_connection,
  close_session as close_message,
}
use mpc_sdk_framework.Wire.{BinaryStream}
use mpc_sdk_framework.Encoding.Encode.{encode_server}
use mpc_sdk_framework.Channel.Noise.{
  TransportState, HandshakeState, handshake, transport, written_into,
}
use mpc_sdk_framework.Channel.Envelopes.{encrypt_server_channel, encrypt_peer_channel}
use mpc_sdk_framework.Actions.{act_then, crash, ◌>>=◌, ◌>>◌, pure, fail, some_or, read_state}
use mpc_sdk_framework.Client.State.{
  peer_not_found, peer_already_exists, not_handshake_state, snow, json as json_error,
  InternalMessage, request as request_message, Client, Act, lift_io, set_server, set_peers, send,
  with_peer, with_server,
}
use mpc_sdk_framework.Client.Options.{Builder, Codecs, initiator_for}

module _ {H T : Type 0} ⦃noise : TransportState T⦄ where
  unfoldable pub relay : Bytes → Bytes → Encoding → Bool → Option SessionId → Act H T Unit
  unfolding ◌>>=◌ act_then read_state fail with_peer send
  relay public_key payload encoding broadcast session_id = do
    c ← read_state
    elim (get public_key c.peers) [
      | none ↦ fail (peer_not_found public_key)
      | some peer ↦ do
        request ←
            with_peer public_key peer
              (λ s. encrypt_peer_channel public_key s payload encoding broadcast session_id)
        send (request_message request)
    ]

  -- Ends at the first error.
  unfoldable pub relay_broadcast : SessionId → List Bytes → Bytes → Encoding → Act H T Unit
  unfolding ◌>>◌ pure relay
  relay_broadcast session_id [] payload encoding = pure tt
  relay_broadcast session_id (key ∷ keys) payload encoding = do
    relay key payload encoding true (some session_id)
    relay_broadcast session_id keys payload encoding

  -- The payload of JSON is what `serde_json::to_vec` gives, `none` for its error.
  unfoldable pub send_json : Bytes → Option Bytes → Option SessionId → Act H T Unit
  unfolding ◌>>=◌ some_or relay
  send_json public_key payload session_id = do
    bytes ← some_or payload json_error
    relay public_key bytes json false session_id

  unfoldable pub send_blob : Bytes → Bytes → Option SessionId → Act H T Unit
  unfolding relay
  send_blob public_key payload session_id = relay public_key payload blob false session_id

  unfoldable pub broadcast_json : SessionId → List Bytes → Option Bytes → Act H T Unit
  unfolding ◌>>=◌ some_or relay_broadcast
  broadcast_json session_id recipients payload = do
    bytes ← some_or payload json_error
    relay_broadcast session_id recipients bytes json

  unfoldable pub broadcast_blob : SessionId → List Bytes → Bytes → Act H T Unit
  unfolding relay_broadcast
  broadcast_blob session_id recipients payload = relay_broadcast session_id recipients payload blob

module _ {H T : Type 0} ⦃bin : BinaryStream⦄ ⦃noise : TransportState T⦄ where
  unfoldable pub request : ServerMessage → Act H T Unit
  unfolding ◌>>=◌ act_then read_state lift_io with_server send
  request message = do
    c ← read_state
    elim c.server [
      | none ↦ crash
      | some server ↦ do
        payload ← lift_io (encode_server message)
        envelope ← with_server server (λ s. encrypt_server_channel s payload false)
        send (request_message (RequestMessage.opaque (server_message envelope)))
    ]

  unfoldable pub new_meeting : UserId → List UserId → Act H T Unit
  unfolding request
  new_meeting owner_id slots = request (new_meeting_message owner_id slots)

  unfoldable pub join_meeting : MeetingId → UserId → Act H T Unit
  unfolding request
  join_meeting meeting_id user_id = request (join_message meeting_id user_id)

  unfoldable pub new_session : List Bytes → Act H T Unit
  unfolding request
  new_session participant_keys =
      request (new_session_message (record { participant_keys = participant_keys }))

  unfoldable pub register_connection : SessionId → Bytes → Act H T Unit
  unfolding request
  register_connection session_id peer_key = request (session_connection session_id peer_key)

  unfoldable pub close_session : SessionId → Act H T Unit
  unfolding request
  close_session session_id = request (close_message session_id)

module _ {H T : Type 0} where
  unfoldable pub public_key : Client H T → Bytes
  public_key c = c.options.keypair.public

  unfoldable pub is_connected : Client H T → Bool
  is_connected c = elim c.server [ some (transport t) ↦ true | _ ↦ false ]

  unfoldable pub close : Act H T Unit
  unfolding send
  close = send InternalMessage.close

  -- What `write_message` gave, with its buffer of 1024 bytes.
  unfoldable pub handshake_payload : Option Bytes → Act H T (ℕ × Bytes)
  unfolding some_or ◌>>=◌ act_then pure written_into
  handshake_payload message = do
    bytes ← some_or message snow
    pure (length bytes, written_into 1024 bytes)

module _ {H T : Type 0} ⦃handshakes : HandshakeState H T⦄ where
  unfoldable pub connect : Act H T Unit
  unfolding ◌>>=◌ ◌>>◌ act_then read_state set_server fail handshake_payload send
  connect = do
    c ← read_state
    elim c.server [
      | some (handshake h) ↦ do
        let (message, h') = handshakes.write h [] 1024
        set_server (some (handshake h'))
        (len, payload) ← handshake_payload message
        send (
            request_message (RequestMessage.transparent (server_handshake (initiator len payload))))
      | _ ↦ fail not_handshake_state
    ]

module _ {H T : Type 0} ⦃handshakes : HandshakeState H T⦄ ⦃builder : Builder H⦄
    ⦃codecs : Codecs⦄ where
  -- The peer is kept also when its first message cannot be written.
  unfoldable pub connect_peer : Bytes → Act H T Unit
  unfolding ◌>>=◌ ◌>>◌ act_then read_state set_peers fail some_or handshake_payload send
  connect_peer public_key = do
    c ← read_state
    elim (get public_key c.peers) [
      | some peer ↦ fail peer_already_exists
      | none ↦ do
        h ← some_or (initiator_for c.options public_key) snow
        let (message, h') = handshakes.write h [] 1024
        set_peers (insert public_key (handshake h') c.peers)
        (len, payload) ← handshake_payload message
        send (
            request_message
              (RequestMessage.transparent (peer_handshake public_key (initiator len payload))))
    ]
