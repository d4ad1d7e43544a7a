-- ===== src/Client/Peering.antt =====
-- From one client to another: `relay` of client/src/client.rs and `handle_relayed_message` of
-- client/src/event_loop.rs, taken together.
use mpc_sdk_framework.Prelude.{
  ◌^◌, ◌<◌, ◌≡◌, refl, Bool, Option, none, some, get, insert, nat_eq, list_eq, length,
}
use mpc_sdk_framework.Messages.{
  Bytes, SessionId, SealedEnvelope, Encoding, opaque, peer_message, noop, blob, json,
}
use mpc_sdk_framework.Wire.{ok, BinaryStream}
use mpc_sdk_framework.Encoding.Valid.{IsEnvelope, IsEncoding}
use mpc_sdk_framework.Channel.Noise.{TransportState, HandshakeState, IsChannel, transport}
use mpc_sdk_framework.Channel.Envelopes.{
  encrypt_peer_channel, decrypt_peer_channel, peer_channel_delivers,
}
use mpc_sdk_framework.Actions.{done, act_then, ◌>>=◌, read_state, pure}
use mpc_sdk_framework.Client.State.{
  Client, Event, binary_message, json_message, InternalMessage, with_peer, lift_peer, set_peers,
}
use mpc_sdk_framework.Client.Options.{Builder, Codecs}
use mpc_sdk_framework.Client.Calls.{relay}
use mpc_sdk_framework.Client.Incoming.{
  handle_incoming_message, handle_relayed_message, relayed_event, as_event,
}
use mpc_sdk_framework.Client.Serving.{CanSend, queued, send-queued}

-- The event of a payload from a peer.
abbrev pub payload_event : Bytes → Option SessionId → Encoding → Bytes → Option Event
payload_event key session_id noop payload = none
payload_event key session_id blob payload = some (binary_message key payload session_id)
payload_event key session_id json payload =
    some (json_message key (record { contents = payload }) session_id)

module _ {H T : Type 0} ⦃noise : TransportState T⦄ where
  pub relay_sends :
      (key payload : Bytes) (encoding : Encoding) (broadcast : Bool) (session_id : Option SessionId)
      (envelope : SealedEnvelope) (a a' : T) (c : Client H T)
      → CanSend c
      → get key c.peers ≡ some (transport a)
      → encrypt_peer_channel {H = H} key (transport a) payload encoding broadcast session_id
        ≡ (ok (opaque (peer_message key session_id envelope)), transport a')
      → relay key payload encoding broadcast session_id c ≡ (
        done tt,
        queued
            (InternalMessage.request (opaque (peer_message key session_id envelope)))
            (record c { peers = insert key (transport a') c.peers }),
      )
  unfolding relay ◌>>=◌ act_then read_state with_peer lift_peer set_peers
  relay_sends key payload encoding broadcast session_id envelope a a' c h peer encrypted =
      rw (peer, encrypted, act_then, lift_peer)
        (send-queued _ _ (record { listening = h.listening; room = h.room }))

  relayed_arrives :
      (key payload : Bytes) (encoding : Encoding) (session_id : Option SessionId)
      (envelope : SealedEnvelope) (b b' : T) (c : Client H T)
      → IsEncoding encoding
      → get key c.peers ≡ some (transport b)
      → decrypt_peer_channel {H = H} (transport b) envelope ≡ (ok (encoding, payload), transport b')
      → as_event (handle_relayed_message key envelope session_id) c ≡ (
        done (payload_event key session_id encoding payload),
        record c { peers = insert key (transport b') c.peers },
      )
  unfolding as_event handle_relayed_message ◌>>=◌ act_then read_state with_peer lift_peer set_peers
      relayed_event pure
  relayed_arrives key payload noop session_id envelope b b' c valid peer clear = absurd valid
  relayed_arrives key payload blob session_id envelope b b' c valid peer clear =
      rw (peer, clear, act_then, lift_peer, relayed_event) refl
  relayed_arrives key payload json session_id envelope b b' c valid peer clear =
      rw (peer, clear, act_then, lift_peer, relayed_event) refl

module _ {H T : Type 0} {Paired : T → T → Type 0} ⦃bin : BinaryStream⦄ ⦃noise : TransportState T⦄
    ⦃handshakes : HandshakeState H T⦄ ⦃builder : Builder H⦄ ⦃codecs : Codecs⦄
    (channel : IsChannel noise Paired) where
  -- Over a noise transport that keeps the law `IsChannel`: a client whose channel to its loop has
  -- room relays a payload under 2^32 bytes, with an encoding other than `Noop`, to a peer whose
  -- transport state keeps pace with its own as one envelope, which the encoding carries; the peer,
  -- given that envelope from the key of the client, yields the event of that encoding with the
  -- client's key, the payload and the session; nothing else of the two clients changes but their
  -- transport states, which still keep pace.
  pub relay_delivered :
      (to from payload : Bytes) (encoding : Encoding) (broadcast : Bool)
      (session_id : Option SessionId) (c d : Client H T) (a b : T)
      → length payload < 2 ^ 32
      → IsEncoding encoding
      → CanSend c
      → get to c.peers ≡ some (transport a)
      → get from d.peers ≡ some (transport b)
      → Paired a b
      → (envelope : SealedEnvelope) × (a' : T) × (b' : T) × (relay to payload encoding broadcast
            session_id c
          ≡ (
            done tt,
            queued
                (InternalMessage.request (opaque (peer_message to session_id envelope)))
                (record c { peers = insert to (transport a') c.peers }),
          ))
        × IsEnvelope envelope
        × (handle_incoming_message (opaque (peer_message from session_id envelope)) d ≡ (
          done (payload_event from session_id encoding payload),
          record d { peers = insert from (transport b') d.peers },
        ))
        × Paired a' b'
  unfolding handle_incoming_message
  relay_delivered to from payload encoding broadcast session_id c d a b small valid h at_c at_d
        paired =
      let (envelope, a', b', encrypted, carried, broadcasts, clear, paired') =
        peer_channel_delivers {H = H} channel to payload encoding broadcast session_id a b paired
          small valid in
      (
        envelope,
        a',
        b',
        relay_sends to payload encoding broadcast session_id envelope a a' c h at_c encrypted,
        carried,
        relayed_arrives from payload encoding session_id envelope b b' d valid at_d clear,
        paired',
      )
