-- ===== src/Channel/Chunks/RoundTrip.antt =====
-- `Chunk::split` on one side and `Chunk::join` of protocol/src/protocol.rs on the other.
use mpc_sdk_framework.Prelude.{
  ℕ, zero, suc, ◌+◌, ◌-◌, ◌≤◌, ◌≡◌, refl, ap, List, [], ◌∷◌, length, take, take_all, All, arith,
  le→ltb, some,
}
use mpc_sdk_framework.Types
use mpc_sdk_framework.Messages.{Bytes, Chunk}
use mpc_sdk_framework.Wire.{ok}
use mpc_sdk_framework.Encoding.Valid.{IsChunk}
use mpc_sdk_framework.Channel.Noise.{TransportState, IsChannel, written_into, call_then}
use mpc_sdk_framework.Channel.Chunks.Defs.{
  chunk_size, chunk_of, without_tag, pieces, encrypt_piece, encrypt_pieces, split, decrypt_chunk,
  join,
}
use mpc_sdk_framework.Channel.Chunks.Pieces.{concat, concat-pieces, pieces_bounded, length-pieces}

written_into_all : (bytes : Bytes) → written_into (length bytes) bytes ≡ bytes
unfolding written_into
written_into_all [] = refl
written_into_all (b ∷ bytes) = ap (λ r. b ∷ r) (written_into_all bytes)

pub take-written_into :
    (size : ℕ) (bytes : Bytes)
    → length bytes ≤ size
    → take (length bytes) (written_into size bytes) ≡ bytes
unfolding written_into
take-written_into zero [] h = refl
take-written_into zero (b ∷ bytes) h = absurd (omega arith)
take-written_into (suc size) [] h = refl
take-written_into (suc size) (b ∷ bytes) h =
    ap (λ r. b ∷ r) (take-written_into size bytes (omega arith))

-- The chunk of a message, and the payload that comes out of it.
chunk_of-eq :
    {T : Type 0} (size : ℕ) (message : Bytes) (t : T)
    → length message ≡ size
    → chunk_of size (some message, t) ≡ (ok (record { length = size; contents = message }), t)
unfolding chunk_of
chunk_of-eq size message t e = rw (← e, written_into_all message)

without_tag-eq :
    {T : Type 0} (payload : Bytes) (t : T)
    → without_tag (length payload + Types.taglen) (some payload, t) ≡ (ok payload, t)
unfolding without_tag
without_tag-eq payload t =
    let size : ℕ = length payload + Types.taglen in
    let rest : size - Types.taglen ≡ length payload = omega arith in
    rw (le→ltb size Types.taglen (omega arith), rest, take-written_into size payload (omega arith))

module _ {T : Type 0} {Paired : T → T → Type 0} ⦃noise : TransportState T⦄
    (channel : IsChannel noise Paired) where
  decrypted :
      (size : ℕ) (message piece : Bytes) (b b' : T)
      → length message ≡ size
      → size ≡ length piece + Types.taglen
      → noise.read b message size ≡ (some piece, b')
      → decrypt_chunk (record { length = size; contents = message }) b ≡ (ok piece, b')
  unfolding decrypt_chunk
  decrypted size message piece b b' len e received =
      rw (le→ltb (length message) size (omega arith), take_all size message (omega arith), received)
        (rw e (without_tag-eq piece b'))

  -- One piece, encrypted by `a` and decrypted by `b`.
  pub piece_delivered :
      (piece : Bytes) (a b : T)
      → Paired a b
      → length piece ≤ chunk_size
      → (chunk : Chunk) × (a' : T) × (b' : T) × (encrypt_piece piece a ≡ (ok chunk, a'))
        × (decrypt_chunk chunk b ≡ (ok piece, b'))
        × IsChunk chunk
        × Paired a' b'
  unfolding encrypt_piece
  piece_delivered piece a b paired h =
      let size : ℕ = length piece + Types.taglen in
      let (message, a', b', written, len, received, paired') =
        channel.delivers a b piece size size paired (omega arith) (omega arith) (omega arith) in
      (
        record { length = size; contents = message },
        a',
        b',
        rw written (chunk_of-eq size message a' len),
        decrypted size message piece b b' len refl received,
        (omega arith, omega arith),
        paired',
      )

  pieces_delivered :
      (pieces : List Bytes) (a b : T)
      → Paired a b
      → All (λ p. length p ≤ chunk_size) pieces
      → (chunks : List Chunk) × (a' : T) × (b' : T) × (encrypt_pieces pieces a ≡ (ok chunks, a'))
        × (join chunks b ≡ (ok (concat pieces), b'))
        × All IsChunk chunks
        × (length chunks ≡ length pieces)
        × Paired a' b'
  unfolding encrypt_pieces call_then join concat
  pieces_delivered [] a b paired h = ([], a, b, refl, refl, tt, refl, paired)
  pieces_delivered (p ∷ ps) a b paired h =
      let (c, a', b', encrypted, clear, fits, paired') = piece_delivered p a b paired h.0 in
      let (cs, a'', b'', more, rest, fit, len, paired'') = pieces_delivered ps a' b' paired' h.1 in
      (c ∷ cs, a'', b'', rw (encrypted, more), rw (clear, rest), (fits, fit), ap suc len, paired'')

  -- Over a noise transport that keeps the law `IsChannel`, between two sides that keep pace: what
  -- `split` makes of any payload, `join` on the other side makes the payload again; each chunk fits
  -- the encoding, no more chunks than bytes are made, and the two sides still keep pace.
  pub join-split :
      (payload : Bytes) (a b : T)
      → Paired a b
      → (chunks : List Chunk) × (a' : T) × (b' : T) × (split payload a ≡ (ok chunks, a'))
        × (join chunks b ≡ (ok payload, b'))
        × All IsChunk chunks
        × (length chunks ≤ length payload)
        × Paired a' b'
  unfolding split
  join-split payload a b paired =
      let fuel : ℕ = length payload in
      let (cs, a', b', encrypted, clear, fit, len, paired') =
        pieces_delivered (pieces fuel chunk_size payload) a b paired
          (pieces_bounded fuel chunk_size payload) in
      (
        cs,
        a',
        b',
        encrypted,
        rw (concat-pieces fuel chunk_size payload (omega arith) (omega arith)) at clear,
        fit,
        omega (arith, length-pieces fuel chunk_size payload),
        paired',
      )
