-- ===== src/Channel/Envelopes.antt =====
-- `encrypt_server_channel` and `decrypt_server_channel` of protocol/src/channel.rs,
-- `encrypt_peer_channel` and `decrypt_peer_channel` of client/src/lib.rs.
use mpc_sdk_framework.Prelude.{◌^◌, ◌<◌, ◌≡◌, refl, Bool, Option, length, arith}
use mpc_sdk_framework.Messages.{
  Bytes, SessionId, Encoding, blob, SealedEnvelope, RequestMessage, opaque, peer_message,
}
use mpc_sdk_framework.Wire.{Result, ok, err, panic, not_transport_state}
use mpc_sdk_framework.Encoding.Valid.{IsEnvelope, IsEncoding}
use mpc_sdk_framework.Channel.Noise.{TransportState, IsChannel, ProtocolState, handshake, transport}
use mpc_sdk_framework.Channel.Chunks.{split, join}
use mpc_sdk_framework.Channel.Chunks.RoundTrip.{join-split}

-- The outcome of a call on the transport inside a protocol state.
unfoldable pub in_transport :
    {H T A B : Type 0} → (A → B) → Result A × T → Result B × ProtocolState H T
in_transport f (ok a, t) = (ok (f a), transport t)
in_transport f (err e, t) = (err e, transport t)
in_transport f (panic, t) = (panic, transport t)

module _ {H T : Type 0} ⦃noise : TransportState T⦄ where
  unfoldable pub encrypt_server_channel :
      ProtocolState H T → Bytes → Bool → Result SealedEnvelope × ProtocolState H T
  unfolding in_transport
  encrypt_server_channel (transport t) payload broadcast =
      in_transport (λ chunks. record { encoding = blob; chunks = chunks; broadcast = broadcast })
        (split payload t)
  encrypt_server_channel (handshake h) payload broadcast = (err not_transport_state, handshake h)

  unfoldable pub decrypt_server_channel :
      ProtocolState H T → SealedEnvelope → Result (Encoding × Bytes) × ProtocolState H T
  unfolding in_transport
  decrypt_server_channel (transport t) envelope =
      in_transport (λ contents. (envelope.encoding, contents)) (join envelope.chunks t)
  decrypt_server_channel (handshake h) envelope = (err not_transport_state, handshake h)

  unfoldable pub encrypt_peer_channel :
      Bytes
      → ProtocolState H T
      → Bytes
      → Encoding
      → Bool
      → Option SessionId
      → Result RequestMessage × ProtocolState H T
  unfolding in_transport
  encrypt_peer_channel public_key (transport t) payload encoding broadcast session_id =
      in_transport
        (λ chunks. opaque (
          peer_message public_key session_id
            (record { encoding = encoding; chunks = chunks; broadcast = broadcast })))
        (split payload t)
  encrypt_peer_channel public_key (handshake h) payload encoding broadcast session_id =
      (err not_transport_state, handshake h)

  unfoldable pub decrypt_peer_channel :
      ProtocolState H T → SealedEnvelope → Result (Encoding × Bytes) × ProtocolState H T
  unfolding in_transport
  decrypt_peer_channel (transport t) envelope =
      in_transport (λ contents. (envelope.encoding, contents)) (join envelope.chunks t)
  decrypt_peer_channel (handshake h) envelope = (err not_transport_state, handshake h)

module _ {H T : Type 0} {Paired : T → T → Type 0} ⦃noise : TransportState T⦄
    (channel : IsChannel noise Paired) where
  -- Over a noise transport that keeps the law `IsChannel`, between two sides that keep pace, a
  -- payload under 2^32 bytes for the server channel becomes an envelope that the encoding carries,
  -- and the other side decrypts it to the payload, as a blob.
  pub server_channel_delivers :
      (payload : Bytes) (broadcast : Bool) (a b : T)
      → Paired a b
      → length payload < 2 ^ 32
      → (envelope : SealedEnvelope) × (a' : T) × (b' : T) × (encrypt_server_channel {H = H}
            (transport a)
            payload
            broadcast
          ≡ (ok envelope, transport a'))
        × IsEnvelope envelope
        × (envelope.broadcast ≡ broadcast)
        × (decrypt_server_channel {H = H} (transport b) envelope
            ≡ (ok (blob, payload), transport b'))
        × Paired a' b'
  unfolding encrypt_server_channel decrypt_server_channel
  server_channel_delivers payload broadcast a b paired h =
      let (chunks, a', b', encrypted, clear, fit, len, paired') =
        join-split channel payload a b paired in
      (
        record { encoding = blob; chunks = chunks; broadcast = broadcast },
        a',
        b',
        rw encrypted,
        (tt, omega arith, fit),
        refl,
        rw clear,
        paired',
      )

  -- Over a noise transport that keeps the law `IsChannel`, between two peers that keep pace, a
  -- payload under 2^32 bytes with an encoding other than `Noop` becomes a request for the peer, in
  -- the session that was named, whose envelope the encoding carries, and the peer decrypts that to
  -- the payload and its encoding.
  pub peer_channel_delivers :
      (key payload : Bytes) (encoding : Encoding) (broadcast : Bool) (session_id : Option SessionId)
      (a b : T)
      → Paired a b
      → length payload < 2 ^ 32
      → IsEncoding encoding
      → (envelope : SealedEnvelope) × (a' : T) × (b' : T) × (encrypt_peer_channel {H = H} key
            (transport a)
            payload
            encoding
            broadcast
            session_id
          ≡ (ok (opaque (peer_message key session_id envelope)), transport a'))
        × IsEnvelope envelope
        × (envelope.broadcast ≡ broadcast)
        × (decrypt_peer_channel {H = H} (transport b) envelope
            ≡ (ok (encoding, payload), transport b'))
        × Paired a' b'
  unfolding encrypt_peer_channel decrypt_peer_channel
  peer_channel_delivers key payload encoding broadcast session_id a b paired h e =
      let (chunks, a', b', encrypted, clear, fit, len, paired') =
        join-split channel payload a b paired in
      (
        record { encoding = encoding; chunks = chunks; broadcast = broadcast },
        a',
        b',
        rw encrypted,
        (e, omega arith, fit),
        refl,
        rw clear,
        paired',
      )
