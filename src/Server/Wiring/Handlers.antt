-- ===== src/Server/Wiring/Handlers.antt =====
-- The handlers of server/src/service.rs other than the server handshake, on the connections.
use mpc_sdk_framework.Prelude.{
  arith, ℕ, ◌≡◌, refl, Bool, true, false, List, [], ◌∷◌, Option, none, some, get, nat_eq, list_eq,
  Option-cases, Bool-cases, inl, inr,
}
use mpc_sdk_framework.Messages.{
  Bytes, Uuid, SessionId, SealedEnvelope, ServerMessage, ResponseMessage, Encoding, new_meeting,
  join_meeting, new_session, session_connection, close_session, noop, error, meeting_created,
  meeting_ready, session_created, session_ready, session_active, session_timeout, session_finished,
  opaque, server_message, blob, json,
}
use mpc_sdk_framework.Wire.{Result, ok, err, panic, BinaryStream}
use mpc_sdk_framework.Encoding.Encode.{encode_response, encode_server}
use mpc_sdk_framework.Encoding.Decode.{decode, decode_server}
use mpc_sdk_framework.Channel.Noise.{TransportState, ProtocolState, handshake, transport}
use mpc_sdk_framework.Channel.Chunks
use mpc_sdk_framework.Channel.Chunks.{split}
use mpc_sdk_framework.Channel.Envelopes.{
  encrypt_server_channel, decrypt_server_channel, in_transport,
}
use mpc_sdk_framework.Server.State.{
  Error, peer_not_found, ServerState, World, Serve, serve_then, ◌>>=◌, ◌>>◌, pure, fail, read_state,
  write_state,
}
use mpc_sdk_framework.Server.Send.{
  Runtime, with_state, send_response, send_message, notify_peers, is_transport, handle_error,
}
use mpc_sdk_framework.Server.Service.{
  open_meeting, join_meeting_point, open_session, connect_session, finish_session, service,
}
use mpc_sdk_framework.Server.Requests.{relay, check_participant, serve_contents, server_request}
use mpc_sdk_framework.Server.Wiring.Kept.{
  Keeps, Kept-by, Keeps-then, Keeps-pure, Keeps-fail, Keeps-lift_io, Keeps-read_state,
  Keeps-read_connection, Keeps-send, Keeps-with_state,
}

module _ {T A : Type 0} where
  pub in_transport_stays :
      (H : Type 0) {B : Type 0} (f : A → B) (r : Result A × T)
      → is_transport {H = H} (some (in_transport f r).1) ≡ true
  unfolding in_transport is_transport
  in_transport_stays H f (ok a, t) = refl
  in_transport_stays H f (err e, t) = refl
  in_transport_stays H f (panic, t) = refl

module _ {H T : Type 0} ⦃noise : TransportState T⦄ where
  pub encrypt_stays :
      (payload : Bytes) (broadcast : Bool) (s : ProtocolState H T)
      → is_transport (some s) ≡ true
      → is_transport (some (encrypt_server_channel s payload broadcast).1) ≡ true
  unfolding encrypt_server_channel
  encrypt_stays payload broadcast (transport t) h = in_transport_stays H _ (split payload t)
  encrypt_stays payload broadcast (handshake x) h = h

  pub decrypt_stays :
      (envelope : SealedEnvelope) (s : ProtocolState H T)
      → is_transport (some s) ≡ true
      → is_transport (some (decrypt_server_channel s envelope).1) ≡ true
  unfolding decrypt_server_channel
  decrypt_stays envelope (transport t) h = in_transport_stays H _ (Chunks.join envelope.chunks t)
  decrypt_stays envelope (handshake x) h = h

module _ {H T : Type 0} ⦃bin : BinaryStream⦄ ⦃runtime : Runtime⦄ where
  pub Keeps-send_response :
      (conn : Uuid) (response : ResponseMessage)
      → Keeps (send_response {H = H} {T = T} conn response)
  unfolding send_response
  Keeps-send_response conn response =
      Keeps-then _ _ (Keeps-lift_io (encode_response response)) (λ buffer. Keeps-send conn buffer)

module _ {H T : Type 0} ⦃bin : BinaryStream⦄ ⦃noise : TransportState T⦄ ⦃runtime : Runtime⦄ where
  pub Keeps-send_message :
      (conn : Uuid) (message : ServerMessage) (broadcast : Bool)
      → Keeps (send_message {H = H} {T = T} conn message broadcast)
  unfolding send_message
  Keeps-send_message conn message broadcast =
      Keeps-then _ _ (Keeps-lift_io (encode_server message)) (λ payload.
        Keeps-then _ _ (Keeps-with_state conn _ (encrypt_stays payload broadcast))
          (λ envelope. Keeps-send_response conn (opaque (server_message envelope))))

  pub Keeps-notify_peers :
      (keys : List Bytes) (message : ServerMessage)
      → Keeps (notify_peers {H = H} {T = T} keys message)
  unfolding notify_peers ◌>>◌
  Keeps-notify_peers [] message = Keeps-pure tt
  Keeps-notify_peers (key ∷ keys) message =
      Keeps-then _ _ Keeps-read_state
        (λ server. Keeps-then _ _ (to_one server) (λ _. Keeps-notify_peers keys message))
    where
      to_one :
          (server : ServerState)
          → Keeps {H = H} {T = T} (elim (get key server.active) [
            | none ↦ pure tt
            | some conn ↦ send_message {H = H} {T = T} conn message true
          ])
      to_one server = elim (Option-cases (get key server.active)) [
        | inl p ↦ rw p (Keeps-pure tt)
        | inr (conn, p) ↦ rw p (Keeps-send_message conn message true)
      ]

  pub Keeps-handle_error : (conn : Uuid) (e : Error) → Keeps (handle_error {H = H} {T = T} conn e)
  unfolding handle_error
  Keeps-handle_error conn e = Keeps-then _ _ (Keeps-read_connection conn) (λ c.
      elim (Bool-cases (is_transport c.state)) [
        | inl p ↦
            rw p (Keeps-send_message conn (ServerMessage.error 500 (runtime.to_string e)) false)
        | inr p ↦ rw p (Keeps-send_response conn _)
      ])

-- `service` does not touch the connections.
module _ {H T : Type 0} where
  unconnected :
      (m : Serve H T (Option ServerMessage))
      → ((w : World H T)
          → ((m w).1.server.active ≡ w.server.active) × ((m w).1.connections ≡ w.connections))
      → Keeps m
  unconnected m h = record { kept = λ w. Kept-by w (m w).1 (h w).0 (h w).1 }

  pub Keeps-service :
      (fresh : Uuid) (now : ℕ) (conn : Uuid) (key : Bytes) (message : ServerMessage)
      → Keeps (service {H = H} {T = T} fresh now conn key message)
  unfolding service open_meeting open_session join_meeting_point connect_session finish_session
  Keeps-service fresh now conn key (new_meeting owner_id slots) =
      unconnected (open_meeting fresh now key owner_id slots) (λ w. (refl, refl))
  Keeps-service fresh now conn key (join_meeting id user) =
      unconnected (join_meeting_point conn now id user) (λ w. ground arith)
  Keeps-service fresh now conn key (new_session request) =
      unconnected (open_session fresh now key request) (λ w. (refl, refl))
  Keeps-service fresh now conn key (session_connection id peer) =
      unconnected (connect_session conn id peer) (λ w. ground arith)
  Keeps-service fresh now conn key (close_session id) =
      unconnected (finish_session key id) (λ w. ground arith)
  Keeps-service fresh now conn key noop = Keeps-pure none
  Keeps-service fresh now conn key (error code message) = Keeps-pure none
  Keeps-service fresh now conn key (meeting_created state) = Keeps-pure none
  Keeps-service fresh now conn key (meeting_ready state) = Keeps-pure none
  Keeps-service fresh now conn key (session_created state) = Keeps-pure none
  Keeps-service fresh now conn key (session_ready state) = Keeps-pure none
  Keeps-service fresh now conn key (session_active state) = Keeps-pure none
  Keeps-service fresh now conn key (session_timeout id) = Keeps-pure none
  Keeps-service fresh now conn key (session_finished id) = Keeps-pure none

module _ {H T : Type 0} ⦃bin : BinaryStream⦄ ⦃runtime : Runtime⦄ where
  pub Keeps-relay :
      (key : Bytes) (relayed : ResponseMessage) → Keeps (relay {H = H} {T = T} key relayed)
  unfolding relay
  Keeps-relay key relayed = Keeps-then _ _ Keeps-read_state to_peer
    where
      to_peer :
          (server : ServerState)
          → Keeps {H = H} {T = T} {A = Unit} (elim (get key server.active) [
            | none ↦ fail (peer_not_found key)
            | some peer ↦ send_response peer relayed
          ])
      to_peer server = elim (Option-cases (get key server.active)) [
        | inl p ↦ rw p (Keeps-fail Unit (peer_not_found key))
        | inr (peer, p) ↦ rw p (Keeps-send_response peer relayed)
      ]

module _ {H T : Type 0} where
  pub Keeps-check_participant :
      (now : ℕ) (key : Bytes) (id : Option SessionId)
      → Keeps (check_participant {H = H} {T = T} now key id)
  unfolding check_participant ◌>>=◌ ◌>>◌ serve_then read_state write_state fail pure
  Keeps-check_participant now key none = Keeps-pure tt
  Keeps-check_participant now key (some id) = record {
    kept = λ w. Kept-by w _ (ground arith) (ground arith);
  }

module _ {H T : Type 0} ⦃bin : BinaryStream⦄ ⦃noise : TransportState T⦄ ⦃runtime : Runtime⦄ where
  pub Keeps-serve_contents :
      (fresh : Uuid) (now : ℕ) (conn : Uuid) (key : Bytes) (encoding : Encoding) (contents : Bytes)
      → Keeps (serve_contents {H = H} {T = T} fresh now conn key encoding contents)
  unfolding serve_contents
  Keeps-serve_contents fresh now conn key noop contents = Keeps-pure tt
  Keeps-serve_contents fresh now conn key json contents = Keeps-pure tt
  Keeps-serve_contents fresh now conn key blob contents =
      Keeps-then _ _ (Keeps-lift_io (decode decode_server contents))
        (λ request. Keeps-then _ _ (Keeps-service fresh now conn key request) answered)
    where
      answered :
          (response : Option ServerMessage)
          → Keeps {H = H} {T = T}
              (elim response [ none ↦ pure tt | some message ↦ send_message conn message false ])
      answered none = Keeps-pure tt
      answered (some message) = Keeps-send_message conn message false

  pub Keeps-server_request :
      (fresh : Uuid) (now : ℕ) (conn : Uuid) (envelope : SealedEnvelope)
      → Keeps (server_request {H = H} {T = T} fresh now conn envelope)
  unfolding server_request
  Keeps-server_request fresh now conn envelope = Keeps-then _ _ (Keeps-read_connection conn) (λ c.
      Keeps-then _ _ Keeps-read_state
        (λ server. opened c.public_key (get c.public_key server.active)))
    where
      opened :
          (key : Bytes) (peer : Option Uuid)
          → Keeps {H = H} {T = T} {A = Unit} (elim peer [
            | none ↦ fail (peer_not_found key)
            | some peer ↦ do
              (encoding, contents) ← with_state peer (λ s. decrypt_server_channel s envelope)
              serve_contents fresh now conn key encoding contents
          ])
      opened key none = Keeps-fail Unit (peer_not_found key)
      opened key (some peer) =
          Keeps-then _ _ (Keeps-with_state peer _ (decrypt_stays envelope))
            (λ clear. Keeps-serve_contents fresh now conn key clear.0 clear.1)
