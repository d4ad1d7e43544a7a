-- ===== src/Examples/Channels.antt =====
-- Payloads of protocol/src/channel.rs over the channel of `Counter`.
use mpc_sdk_framework.Prelude.{ℕ, ◌≤◌, ◌≡◌, refl, true, List, [], ◌∷◌, none, length, arith, All}
use mpc_sdk_framework.Messages.{Bytes, Chunk, SealedEnvelope, blob, json, opaque, peer_message}
use mpc_sdk_framework.Wire.{ok, panic}
use mpc_sdk_framework.Encoding.Valid.{IsChunk, IsEnvelope}
use mpc_sdk_framework.Channel.Noise.{transport}
use mpc_sdk_framework.Channel.Counter.{counter, counter-IsChannel, SameCount}
use mpc_sdk_framework.Channel.Chunks.{split, join}
use mpc_sdk_framework.Channel.Chunks.RoundTrip.{join-split}
use mpc_sdk_framework.Channel.Chunks.Malformed.{join-panic}
use mpc_sdk_framework.Channel.Envelopes.{
  encrypt_server_channel, decrypt_server_channel, encrypt_peer_channel, decrypt_peer_channel,
  server_channel_delivers, peer_channel_delivers,
}

abbrev payload : Bytes
payload = 10 ∷ 20 ∷ 30 ∷ []

join-split_example :
    (chunks : List Chunk) × (a' : ℕ) × (b' : ℕ) × (split payload 0 ≡ (ok chunks, a'))
    × (join chunks 0 ≡ (ok payload, b'))
    × All IsChunk chunks
    × (length chunks ≤ length payload)
    × SameCount a' b'
join-split_example = join-split counter-IsChannel payload 0 0 refl

server_channel_delivers_example :
    (envelope : SealedEnvelope) × (a' : ℕ) × (b' : ℕ) × (encrypt_server_channel {H = ℕ}
        (transport 0)
        payload
        true
      ≡ (ok envelope, transport a'))
    × IsEnvelope envelope
    × (envelope.broadcast ≡ true)
    × (decrypt_server_channel {H = ℕ} (transport 0) envelope ≡ (ok (blob, payload), transport b'))
    × SameCount a' b'
server_channel_delivers_example =
    server_channel_delivers counter-IsChannel payload true 0 0 refl (omega arith)

peer_channel_delivers_example :
    (envelope : SealedEnvelope) × (a' : ℕ) × (b' : ℕ) × (encrypt_peer_channel {H = ℕ}
        (5 ∷ [])
        (transport 0)
        payload
        json
        true
        none
      ≡ (ok (opaque (peer_message (5 ∷ []) none envelope)), transport a'))
    × IsEnvelope envelope
    × (envelope.broadcast ≡ true)
    × (decrypt_peer_channel {H = ℕ} (transport 0) envelope ≡ (ok (json, payload), transport b'))
    × SameCount a' b'
peer_channel_delivers_example =
    peer_channel_delivers counter-IsChannel (5 ∷ []) payload json true none 0 0 refl (omega arith)
      tt

-- A chunk that says that it has a byte, and has none.
abbrev short_chunk : Chunk
short_chunk = record { length = 1; contents = [] }

join-panic_example : (join {T = ℕ} (short_chunk ∷ []) 0).0 ≡ panic
unfolding join
join-panic_example = join-panic {T = ℕ} [] short_chunk [] 0 0 [] refl (omega arith)
