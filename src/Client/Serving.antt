-- ===== src/Client/Serving.antt =====
-- From the client's request to `service`: `request` of client/src/client.rs and `handle_request` of
-- server/src/service.rs, taken together.
use mpc_sdk_framework.Prelude.{
  ℕ, ◌^◌, ◌<◌, ◌≡◌, refl, true, false, [], ◌∷◌, ◌++◌, none, some, get, nat_eq, list_eq, length,
  lt→ltb, append-nil,
}
use mpc_sdk_framework.Messages.{
  Bytes, Uuid, SealedEnvelope, ServerMessage, opaque, server_message, blob,
}
use mpc_sdk_framework.Wire.{ok, BinaryStream}
use mpc_sdk_framework.Wire.Carries.{IsFaithful}
use mpc_sdk_framework.Encoding.Encode.{encode_server}
use mpc_sdk_framework.Encoding.Decode.{decode, decode_server}
use mpc_sdk_framework.Encoding.Valid.{IsServer, IsEnvelope}
use mpc_sdk_framework.Encoding.RoundTrip.Messages.{decode_server-encode_server}
use mpc_sdk_framework.Channel.Noise.{TransportState, HandshakeState, IsChannel, transport}
use mpc_sdk_framework.Channel.Envelopes.{
  encrypt_server_channel, decrypt_server_channel, server_channel_delivers,
}
use mpc_sdk_framework.Actions.{done, act_then, ◌>>=◌, read_state}
use mpc_sdk_framework.Client.State.{
  Client, InternalMessage, channel_size, lift, lift_io, with_server, send, set_server,
}
use mpc_sdk_framework.Client.Calls
use mpc_sdk_framework.Server.State
use mpc_sdk_framework.Server.State.{Connection, World, Serve, write_connection}
use mpc_sdk_framework.Server.Send.{Runtime, with_state, send_message}
use mpc_sdk_framework.Server.Service.{service}
use mpc_sdk_framework.Server.Requests.{handle_request, server_request, serve_contents}

module _ {H T : Type 0} where
  -- A client whose loop is there to receive and has room for a message.
  pub record CanSend (c : Client H T) : Type 0 where
    pub listening : c.listening ≡ true
    pub room : length c.outbound < channel_size

  -- The client with one more message for its loop.
  abbrev pub queued : InternalMessage → Client H T → Client H T
  queued message c = record c { outbound = c.outbound ++ message ∷ [] }

  pub send-queued :
      (message : InternalMessage) (c : Client H T)
      → CanSend c
      → send message c ≡ (done tt, queued message c)
  unfolding send
  send-queued message c h = rw (h.listening, lt→ltb (length c.outbound) 32 h.room) refl

module _ {H T : Type 0} ⦃bin : BinaryStream⦄ ⦃noise : TransportState T⦄ ⦃runtime : Runtime⦄ where
  -- What `service` makes of a request, and sends back.
  unfoldable pub served : Uuid → ℕ → Uuid → Bytes → ServerMessage → Serve H T Unit
  unfolding State.◌>>=◌ State.pure
  served fresh now conn public_key message w =
      State.serve_then (service fresh now conn public_key message w)
        λ response. elim response [ none ↦ State.pure tt | some m ↦ send_message conn m false ]

module _ {H T : Type 0} ⦃bin : BinaryStream⦄ ⦃noise : TransportState T⦄ where
  request_sends :
      (message : ServerMessage) (payload : Bytes) (envelope : SealedEnvelope) (a a' : T)
      (c : Client H T)
      → CanSend c
      → c.server ≡ some (transport a)
      → encode_server message ≡ ok payload
      → encrypt_server_channel {H = H} (transport a) payload false ≡ (ok envelope, transport a')
      → Calls.request message c ≡ (
        done tt,
        queued
            (InternalMessage.request (opaque (server_message envelope)))
            (record c { server = some (transport a') }),
      )
  unfolding Calls.request ◌>>=◌ act_then read_state lift lift_io with_server set_server
  request_sends message payload envelope a a' c h state encoded encrypted =
      rw (state, encoded, act_then, lift_io, encrypted, act_then, lift)
        (send-queued _ _ (record { listening = h.listening; room = h.room }))

module _ {H T : Type 0} ⦃bin : BinaryStream⦄ ⦃noise : TransportState T⦄
    ⦃handshakes : HandshakeState H T⦄ ⦃runtime : Runtime⦄ where
  request_arrives :
      (message : ServerMessage) (payload : Bytes) (envelope : SealedEnvelope) (b b' : T)
      (w : World H T) (fresh : Uuid) (now : ℕ) (conn peer : Uuid)
      → get (w.connections conn).public_key w.server.active ≡ some peer
      → (w.connections peer).state ≡ some (transport b)
      → decrypt_server_channel {H = H} (transport b) envelope ≡ (ok (blob, payload), transport b')
      → decode decode_server payload ≡ ok message
      → handle_request fresh now conn (opaque (server_message envelope)) w
        ≡ served fresh now conn
            (w.connections conn).public_key
            message
            (write_connection peer
              (record (w.connections peer) { state = some (transport b') })
              w).1
  unfolding handle_request server_request serve_contents with_state served State.◌>>=◌
      State.serve_then State.read_state State.read_connection State.lift State.lift_io
  request_arrives message payload envelope b b' w fresh now conn peer active state clear decoded =
      rw
        (
          active, State.◌>>=◌, with_state, state, clear, State.serve_then, State.lift,
          serve_contents, decoded, State.serve_then, State.lift_io, served,
        )
        refl

module _ {H T : Type 0} {Paired : T → T → Type 0} ⦃bin : BinaryStream⦄ ⦃noise : TransportState T⦄
    ⦃handshakes : HandshakeState H T⦄ ⦃runtime : Runtime⦄ (faithful : IsFaithful bin)
    (channel : IsChannel noise Paired) where
  -- Over primitives and a noise transport that keep their laws: a client whose channel to its loop
  -- has room, and whose transport state keeps pace with that of the active connection of its key on
  -- the server, sends any valid message that encodes to less than 2^32 bytes as one envelope, which
  -- the encoding carries; and the server, given that envelope, does what `service` does with that
  -- message and sends its answer, from a state in which only the transport state of the connection
  -- has changed. The two sides still keep pace when `service` is called.
  pub request-served :
      (message : ServerMessage) (c : Client H T) (w : World H T) (fresh : Uuid) (now : ℕ)
      (conn peer : Uuid) (a b : T)
      → IsServer message
      → ((payload : Bytes) → encode_server message ≡ ok payload → length payload < 2 ^ 32)
      → CanSend c
      → c.server ≡ some (transport a)
      → get (w.connections conn).public_key w.server.active ≡ some peer
      → (w.connections peer).state ≡ some (transport b)
      → Paired a b
      → (envelope : SealedEnvelope) × (a' : T) × (b' : T) × (Calls.request message c ≡ (
        done tt,
        queued
            (InternalMessage.request (opaque (server_message envelope)))
            (record c { server = some (transport a') }),
      ))
        × IsEnvelope envelope
        × (handle_request fresh now conn (opaque (server_message envelope)) w
            ≡ served fresh now conn
                (w.connections conn).public_key
                message
                (write_connection peer
                  (record (w.connections peer) { state = some (transport b') })
                  w).1)
        × Paired a' b'
  request-served message c w fresh now conn peer a b valid small h server active state paired =
      let (payload, encoded, reads) = decode_server-encode_server faithful message valid in
      let (envelope, a', b', encrypted, carried, private, clear, paired') =
        server_channel_delivers {H = H} channel payload false a b paired (small payload encoded) in
      let decoded : decode decode_server payload ≡ ok message =
        rw (← append-nil payload) (reads []) in
      (
        envelope,
        a',
        b',
        request_sends message payload envelope a a' c h server encoded encrypted,
        carried,
        request_arrives message payload envelope b b' w fresh now conn peer active state clear
            decoded,
        paired',
      )
