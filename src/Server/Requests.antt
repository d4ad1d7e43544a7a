-- ===== src/Server/Requests.antt =====
-- `handle_request` and the loop `listen` of server/src/service.rs. A slice that is longer than its
-- buffer panics.
use mpc_sdk_framework.Prelude.{
  ℕ, false, List, [], ◌∷◌, Option, none, some, get, contains, nat_eq, list_eq, length, take, ltb,
  if◌then◌else◌,
}
use mpc_sdk_framework.Messages.{
  Bytes, Uuid, SessionId, RequestMessage, ResponseMessage, SealedEnvelope, Encoding, initiator,
  responder, server_handshake, peer_handshake, server_message, peer_message, blob,
}
use mpc_sdk_framework.Wire.{BinaryStream}
use mpc_sdk_framework.Encoding.Decode.{decode, decode_request, decode_server}
use mpc_sdk_framework.Channel.Noise.{
  TransportState, HandshakeState, ProtocolState, handshake, transport, written_into,
}
use mpc_sdk_framework.Channel.Envelopes.{decrypt_server_channel}
use mpc_sdk_framework.Sessions.{touch_session, public_keys}
use mpc_sdk_framework.Server.State.{
  Outcome, done, failed, panicked, snow, not_handshake_state, peer_not_found, session_not_found,
  not_session_participant, Connection, World, Serve, serve_then, ◌>>=◌, ◌>>◌, pure, fail, lift_io,
  read_state, write_state, read_connection, write_connection, log_error,
}
use mpc_sdk_framework.Server.Send.{Runtime, with_state, send_response, send_message, handle_error}
use mpc_sdk_framework.Server.Lifecycle.{promote_connection}
use mpc_sdk_framework.Server.Service.{service}

module _ {H T : Type 0} ⦃handshakes : HandshakeState H T⦄ where
  -- The answer of a responder to an initiator's message, in buffers of 1024 bytes.
  unfoldable pub respond : ℕ → Bytes → H → Outcome (ℕ × Bytes) × ProtocolState H T
  unfolding written_into
  respond len buf h =
      if ltb (length buf) len
      then (panicked, handshake h)
      else let (payload, h1) = handshakes.read h (take len buf) 1024 in
        elim payload [
          | none ↦ (failed snow, handshake h1)
          | some bytes ↦
              let (reply, h2) = handshakes.write h1 [] 1024 in
              elim reply [
                | none ↦ (failed snow, handshake h2)
                | some written ↦ (done (length written, written_into 1024 written), handshake h2)
              ]
        ]

  unfoldable pub respond_to : Uuid → ℕ → Bytes → Serve H T (ℕ × Bytes)
  unfolding respond write_connection
  respond_to conn len buf w =
      let c : Connection H T = w.connections conn in
      elim c.state [
        | some (handshake h) ↦
            let (reply, state) = respond len buf h in
            (reply, (write_connection conn (record c { state = some state }) w).1)
        | _ ↦ (failed not_handshake_state, w)
      ]

  -- The state is taken out of the connection, and put back when the handshake has finished.
  unfoldable pub enter_transport : Uuid → Serve H T Unit
  unfolding write_connection
  enter_transport conn w =
      let c : Connection H T = w.connections conn in
      let taken : World H T = (write_connection conn (record c { state = none }) w).1 in
      elim c.state [
        | some (handshake h) ↦ elim (handshakes.into_transport_mode h) [
          | none ↦ (failed snow, taken)
          | some t ↦ write_connection conn (record c { state = some (transport t) }) taken
        ]
        | _ ↦ (panicked, taken)
      ]

module _ {H T : Type 0} ⦃bin : BinaryStream⦄ ⦃runtime : Runtime⦄ where
  -- Sends to the active connection of a key.
  unfoldable pub relay : Bytes → ResponseMessage → Serve H T Unit
  unfolding ◌>>=◌ ◌>>◌ serve_then read_state send_response fail
  relay public_key relayed = do
    server ← read_state
    elim (get public_key server.active) [
      | none ↦ fail (peer_not_found public_key)
      | some peer ↦ send_response peer relayed
    ]

module _ {H T : Type 0} where
  -- A message in a session is for one of its participants, and touches the session.
  unfoldable pub check_participant : ℕ → Bytes → Option SessionId → Serve H T Unit
  unfolding ◌>>=◌ ◌>>◌ serve_then read_state write_state fail pure touch_session public_keys
  check_participant now public_key none = pure tt
  check_participant now public_key (some id) = do
    server ← read_state
    let (session, sessions) = touch_session id now server.sessions
    write_state (record server { sessions = sessions })
    elim session [
      | none ↦ fail (session_not_found id)
      | some s ↦
          if contains public_key (public_keys s)
          then pure tt
          else fail (not_session_participant id public_key)
    ]

module _ {H T : Type 0} ⦃bin : BinaryStream⦄ ⦃handshakes : HandshakeState H T⦄
    ⦃runtime : Runtime⦄ where
  unfoldable pub server_handshake_request : Uuid → ℕ → Bytes → Serve H T Unit
  unfolding ◌>>=◌ ◌>>◌ serve_then respond_to send_response enter_transport promote_connection
  server_handshake_request conn len buf = do
    (reply_len, reply) ← respond_to conn len buf
    send_response conn (ResponseMessage.transparent (server_handshake (responder reply_len reply)))
    enter_transport conn
    promote_connection conn

module _ {H T : Type 0} ⦃bin : BinaryStream⦄ ⦃noise : TransportState T⦄ ⦃runtime : Runtime⦄ where
  -- What `service` answers goes back to the connection; an envelope that is not a blob is dropped.
  unfoldable pub serve_contents : Uuid → ℕ → Uuid → Bytes → Encoding → Bytes → Serve H T Unit
  unfolding ◌>>=◌ serve_then lift_io pure service send_message decode
  serve_contents fresh now conn from_public_key blob contents = do
    request ← lift_io (decode decode_server contents)
    response ← service fresh now conn from_public_key request
    elim response [ none ↦ pure tt | some message ↦ send_message conn message false ]
  serve_contents fresh now conn from_public_key encoding contents = pure tt

  unfoldable pub server_request : Uuid → ℕ → Uuid → SealedEnvelope → Serve H T Unit
  unfolding ◌>>=◌ serve_then read_state read_connection fail with_state serve_contents
  server_request fresh now conn envelope = do
    c ← read_connection conn
    server ← read_state
    elim (get c.public_key server.active) [
      | none ↦ fail (peer_not_found c.public_key)
      | some peer ↦ do
        (encoding, contents) ← with_state peer (λ s. decrypt_server_channel s envelope)
        serve_contents fresh now conn c.public_key encoding contents
    ]

  -- An error of a request is answered, and an error of the answer only logged.
  unfoldable pub answer_error : Uuid → Outcome Unit × World H T → Outcome Unit × World H T
  unfolding handle_error log_error
  answer_error conn (done a, w) = (done a, w)
  answer_error conn (failed e, w) = log_error (handle_error conn e w)
  answer_error conn (panicked, w) = (panicked, w)

module _ {H T : Type 0} ⦃bin : BinaryStream⦄ ⦃noise : TransportState T⦄
    ⦃handshakes : HandshakeState H T⦄ ⦃runtime : Runtime⦄ where
  unfoldable pub handle_request : Uuid → ℕ → Uuid → RequestMessage → Serve H T Unit
  unfolding ◌>>=◌ ◌>>◌ serve_then read_connection pure server_handshake_request relay
      check_participant server_request
  handle_request fresh now conn
        (RequestMessage.transparent (server_handshake (initiator len buf))) =
      server_handshake_request conn len buf
  handle_request fresh now conn (RequestMessage.transparent (peer_handshake public_key message)) =
      do
        c ← read_connection conn
        relay public_key (ResponseMessage.transparent (peer_handshake c.public_key message))
  handle_request fresh now conn
        (RequestMessage.opaque (peer_message public_key session_id envelope)) =
      do
        check_participant now public_key session_id
        c ← read_connection conn
        relay public_key (ResponseMessage.opaque (peer_message c.public_key session_id envelope))
  handle_request fresh now conn (RequestMessage.opaque (server_message envelope)) =
      server_request fresh now conn envelope
  handle_request fresh now conn message = pure tt

  -- The loop over the buffers that arrive, each with the identifier and the time it is given.
  unfoldable pub listen : Uuid → List (Uuid × ℕ × Bytes) → Serve H T Unit
  unfolding ◌>>=◌ ◌>>◌ serve_then lift_io pure decode handle_request answer_error
  listen conn [] = pure tt
  listen conn ((fresh, now, buffer) ∷ buffers) = do
    message ← lift_io (decode decode_request buffer)
    (λ w. answer_error conn (handle_request fresh now conn message w))
    listen conn buffers
