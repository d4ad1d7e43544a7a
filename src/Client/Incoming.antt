-- ===== src/Client/Incoming.antt =====
-- The handlers of client/src/event_loop.rs for the responses that the loop has read. A slice that is
-- longer than its buffer panics.
use mpc_sdk_framework.Prelude.{
  ℕ, [], Option, none, some, get, insert, remove, nat_eq, list_eq, length, take, ltb, if◌then◌else◌,
}
use mpc_sdk_framework.Messages.{
  Bytes, SessionId, Encoding, ServerMessage, ResponseMessage, RequestMessage, SealedEnvelope, noop,
  blob, json, initiator, responder, server_handshake, peer_handshake, server_message, peer_message,
  error, meeting_created, meeting_ready, session_created, session_ready, session_active,
  session_timeout, session_finished,
}
use mpc_sdk_framework.Wire.{BinaryStream}
use mpc_sdk_framework.Encoding.Decode.{decode, decode_server}
use mpc_sdk_framework.Channel.Noise.{TransportState, HandshakeState, handshake, transport}
use mpc_sdk_framework.Channel.Envelopes.{decrypt_server_channel, decrypt_peer_channel}
use mpc_sdk_framework.Actions.{act_then, ◌>>=◌, ◌>>◌, pure, fail, some_or, crash, read_state}
use mpc_sdk_framework.Client.State.{
  server_error, peer_not_found, peer_already_exists_maybe_race, not_handshake_state, snow, Event,
  server_connected, peer_connected, binary_message, json_message, request, Act, lift_io, set_server,
  set_peers, send, with_peer, with_server,
}
use mpc_sdk_framework.Client.Options.{Builder, Codecs, responder_for}
use mpc_sdk_framework.Client.Calls.{handshake_payload}

module _ {H T : Type 0} where
  unfoldable pub handle_server_channel_message : ServerMessage → Act H T (Option Event)
  unfolding pure fail
  handle_server_channel_message (error code message) = fail (server_error code message)
  handle_server_channel_message (meeting_created s) = pure (some (Event.meeting_created s))
  handle_server_channel_message (meeting_ready s) = pure (some (Event.meeting_ready s))
  handle_server_channel_message (session_created s) = pure (some (Event.session_created s))
  handle_server_channel_message (session_ready s) = pure (some (Event.session_ready s))
  handle_server_channel_message (session_active s) = pure (some (Event.session_active s))
  handle_server_channel_message (session_timeout id) = pure (some (Event.session_timeout id))
  handle_server_channel_message (session_finished id) = pure (some (Event.session_finished id))
  handle_server_channel_message message = pure none

  unfoldable pub relayed_event : Bytes → Option SessionId → Encoding → Bytes → Act H T Event
  unfolding pure crash
  relayed_event public_key session_id noop contents = crash
  relayed_event public_key session_id blob contents =
      pure (binary_message public_key contents session_id)
  relayed_event public_key session_id json contents =
      pure (json_message public_key (record { contents = contents }) session_id)

module _ {H T : Type 0} ⦃handshakes : HandshakeState H T⦄ where
  -- `read_message` into a buffer of 1024 bytes.
  unfoldable pub read_handshake : H → ℕ → Bytes → Act H T H
  unfolding ◌>>=◌ act_then some_or pure crash
  read_handshake h len buf = if ltb (length buf) len then crash else (do
    let (payload, h') = handshakes.read h (take len buf) 1024
    bytes ← some_or payload snow
    pure h')

  -- The answer of a responder to a handshake that this side began.
  unfoldable pub finish_handshake : H → ℕ → Bytes → Act H T T
  unfolding ◌>>=◌ act_then some_or read_handshake
  finish_handshake h len buf = do
    h' ← read_handshake h len buf
    some_or (handshakes.into_transport_mode h') snow

  -- The state is taken first, and put back when the handshake has finished.
  unfoldable pub server_handshake_done : ℕ → Bytes → Act H T Event
  unfolding ◌>>=◌ ◌>>◌ act_then read_state set_server fail pure finish_handshake
  server_handshake_done len buf = do
    c ← read_state
    set_server none
    elim c.server [
      | some (handshake h) ↦ do
        t ← finish_handshake h len buf
        set_server (some (transport t))
        pure (server_connected c.options.server_public_key)
      | _ ↦ fail not_handshake_state
    ]

  -- The peer is removed first, and put back when the handshake has finished.
  unfoldable pub peer_handshake_ack : Bytes → ℕ → Bytes → Act H T Event
  unfolding ◌>>=◌ ◌>>◌ act_then read_state set_peers fail pure finish_handshake
  peer_handshake_ack public_key len buf = do
    c ← read_state
    elim (get public_key c.peers) [
      | none ↦ fail (peer_not_found public_key)
      | some peer ↦ do
        set_peers (remove public_key c.peers)
        elim peer [
          | transport t ↦ fail not_handshake_state
          | handshake h ↦ do
            t ← finish_handshake h len buf
            set_peers (insert public_key (transport t) (remove public_key c.peers))
            pure (peer_connected public_key)
        ]
    ]

module _ {H T : Type 0} ⦃handshakes : HandshakeState H T⦄ ⦃builder : Builder H⦄
    ⦃codecs : Codecs⦄ where
  unfoldable pub peer_handshake_responder : Bytes → ℕ → Bytes → Act H T (Option Event)
  unfolding ◌>>=◌ ◌>>◌ act_then read_state set_peers fail pure some_or read_handshake
      handshake_payload send
  peer_handshake_responder public_key len buf = do
    c ← read_state
    elim (get public_key c.peers) [
      | some peer ↦ fail peer_already_exists_maybe_race
      | none ↦ do
        h0 ← some_or (responder_for c.options public_key) snow
        h1 ← read_handshake h0 len buf
        let (message, h2) = handshakes.write h1 [] 1024
        (reply_len, reply) ← handshake_payload message
        t ← some_or (handshakes.into_transport_mode h2) snow
        set_peers (insert public_key (transport t) c.peers)
        send (
            request
              (RequestMessage.transparent (peer_handshake public_key (responder reply_len reply))))
        pure (some (peer_connected public_key))
    ]

module _ {H T : Type 0} ⦃noise : TransportState T⦄ where
  unfoldable pub handle_relayed_message : Bytes → SealedEnvelope → Option SessionId → Act H T Event
  unfolding ◌>>=◌ act_then read_state fail with_peer relayed_event
  handle_relayed_message public_key envelope session_id = do
    c ← read_state
    elim (get public_key c.peers) [
      | none ↦ fail (peer_not_found public_key)
      | some peer ↦ do
        (encoding, contents) ← with_peer public_key peer (λ s. decrypt_peer_channel s envelope)
        relayed_event public_key session_id encoding contents
    ]

module _ {H T : Type 0} ⦃bin : BinaryStream⦄ where
  unfoldable pub server_contents : Encoding → Bytes → Act H T (Option Event)
  unfolding ◌>>=◌ act_then lift_io decode handle_server_channel_message crash
  server_contents blob contents = do
    message ← lift_io (decode decode_server contents)
    handle_server_channel_message message
  server_contents encoding contents = crash

module _ {H T : Type 0} ⦃bin : BinaryStream⦄ ⦃noise : TransportState T⦄ where
  unfoldable pub handle_server_message : SealedEnvelope → Act H T (Option Event)
  unfolding ◌>>=◌ act_then read_state with_server server_contents crash
  handle_server_message envelope = do
    c ← read_state
    elim c.server [
      | none ↦ crash
      | some server ↦ do
        (encoding, contents) ← with_server server (λ s. decrypt_server_channel s envelope)
        server_contents encoding contents
    ]

module _ {H T : Type 0} where
  -- `Ok(Some(…))`.
  unfoldable pub as_event : Act H T Event → Act H T (Option Event)
  unfolding ◌>>=◌ act_then pure
  as_event action = do event ← action; pure (some event)

module _ {H T : Type 0} ⦃bin : BinaryStream⦄ ⦃noise : TransportState T⦄
    ⦃handshakes : HandshakeState H T⦄ ⦃builder : Builder H⦄ ⦃codecs : Codecs⦄ where
  unfoldable pub handle_incoming_message : ResponseMessage → Act H T (Option Event)
  unfolding fail as_event server_handshake_done peer_handshake_responder peer_handshake_ack
      handle_relayed_message handle_server_message crash
  handle_incoming_message (ResponseMessage.transparent (error code message)) =
      fail (server_error code message)
  handle_incoming_message (ResponseMessage.transparent (server_handshake (responder len buf))) =
      as_event (server_handshake_done len buf)
  handle_incoming_message (ResponseMessage.transparent (peer_handshake key (initiator len buf))) =
      peer_handshake_responder key len buf
  handle_incoming_message (ResponseMessage.transparent (peer_handshake key (responder len buf))) =
      as_event (peer_handshake_ack key len buf)
  handle_incoming_message (ResponseMessage.opaque (peer_message key session_id envelope)) =
      as_event (handle_relayed_message key envelope session_id)
  handle_incoming_message (ResponseMessage.opaque (server_message envelope)) =
      handle_server_message envelope
  handle_incoming_message message = crash
