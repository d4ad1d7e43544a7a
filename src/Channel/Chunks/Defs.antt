-- ===== src/Channel/Chunks/Defs.antt =====
-- `Chunk::split` and `Chunk::join` of protocol/src/protocol.rs.
use mpc_sdk_framework.Prelude.{
  ℕ, zero, suc, ◌+◌, ◌-◌, List, [], ◌∷◌, ◌++◌, Option, none, some, length, take, drop, ltb,
  if◌then◌else◌,
}
use mpc_sdk_framework.Types
use mpc_sdk_framework.Messages.{Bytes, Chunk}
use mpc_sdk_framework.Wire.{Result, ok, err, panic, snow}
use mpc_sdk_framework.Channel.Noise.{TransportState, Call, call_then, written_into}

abbrev pub chunk_size : ℕ
chunk_size = Types.max_buffer_size - Types.taglen

-- `slice::chunks`, with fuel for the number of pieces.
unfoldable pub pieces : ℕ → ℕ → Bytes → List Bytes
pieces zero size bytes = []
pieces (suc fuel) size [] = []
pieces (suc fuel) size (b ∷ bytes) =
    take size (b ∷ bytes) ∷ pieces fuel size (drop size (b ∷ bytes))

-- What `write_message` left in the buffer, as a chunk.
unfoldable pub chunk_of : {T : Type 0} → ℕ → Option Bytes × T → Result Chunk × T
chunk_of size (none, t) = (err snow, t)
chunk_of size (some message, t) =
    (ok (record { length = length message; contents = written_into size message }), t)

-- What `read_message` left in a buffer of `size` bytes, cut by the length of the tag. The length of
-- the buffer less that of the tag wraps below zero, and `truncate` to a length beyond the buffer
-- leaves it whole.
unfoldable pub without_tag : {T : Type 0} → ℕ → Option Bytes × T → Result Bytes × T
unfolding written_into
without_tag size (none, t) = (err snow, t)
without_tag size (some payload, t) =
    if ltb size Types.taglen
    then (ok (written_into size payload), t)
    else (ok (take (size - Types.taglen) (written_into size payload)), t)

module _ {T : Type 0} ⦃noise : TransportState T⦄ where
  unfoldable pub encrypt_piece : Bytes → Call T Chunk
  unfolding chunk_of written_into
  encrypt_piece piece t =
      let size = length piece + Types.taglen in chunk_of size (noise.write t piece size)

  unfoldable pub encrypt_pieces : List Bytes → Call T (List Chunk)
  unfolding encrypt_piece call_then
  encrypt_pieces [] t = (ok [], t)
  encrypt_pieces (p ∷ ps) t =
      call_then (encrypt_piece p t)
        λ chunk s. call_then (encrypt_pieces ps s) λ chunks u. (ok (chunk ∷ chunks), u)

  unfoldable pub split : Bytes → Call T (List Chunk)
  unfolding encrypt_pieces pieces
  split payload t = encrypt_pieces (pieces (length payload) chunk_size payload) t

  -- The slice `contents[..length]` panics if the contents are shorter than that.
  unfoldable pub decrypt_chunk : Chunk → Call T Bytes
  unfolding without_tag
  decrypt_chunk c t =
      if ltb (length c.contents) c.length
      then (panic, t)
      else without_tag c.length (noise.read t (take c.length c.contents) c.length)

  unfoldable pub join : List Chunk → Call T Bytes
  unfolding decrypt_chunk call_then
  join [] t = (ok [], t)
  join (c ∷ cs) t =
      call_then (decrypt_chunk c t)
        λ contents s. call_then (join cs s) λ payload u. (ok (contents ++ payload), u)
