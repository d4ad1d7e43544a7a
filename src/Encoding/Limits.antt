-- ===== src/Encoding/Limits.antt =====
-- More keys than the count of 16 bits in protocol/src/encoding/v1/mod.rs can tell.
use mpc_sdk_framework.Prelude.{
  ℕ, zero, suc, ◌%◌, ◌^◌, ◌≤◌, ◌≡◌, refl, List, [], ◌∷◌, ◌++◌, append_assoc, length, take, drop,
  All, arith, nat_eq, list_eq,
}
use mpc_sdk_framework.Messages.{Bytes, SessionRequest}
use mpc_sdk_framework.Wire.{BinaryStream, ok}
use mpc_sdk_framework.Wire.Writer.{◌>>◌, write_each}
use mpc_sdk_framework.Wire.Reader.{◌>>=◌, pure, read_each}
use mpc_sdk_framework.Wire.Carries.{IsFaithful, carries-each}
use mpc_sdk_framework.Encoding.Buffers.{encode_buffer, decode_buffer}
use mpc_sdk_framework.Encoding.Buffers.Laws.{IsBuffer, buffer-carries}
use mpc_sdk_framework.Encoding.Encode.{encode_session_request}
use mpc_sdk_framework.Encoding.Decode.{decode_session_request}

module _ ⦃bin : BinaryStream⦄ (faithful : IsFaithful bin) where
  -- All keys are written; a loop of `n` reads gives the first `n` of them, and leaves the others.
  each_prefix :
      (n : ℕ) (keys : List Bytes)
      → All IsBuffer keys
      → n ≤ length keys
      → (bytes : Bytes) × (left : Bytes) × (write_each encode_buffer keys ≡ ok bytes)
        × (write_each encode_buffer (drop n keys) ≡ ok left)
        × ((rest : Bytes)
            → read_each n decode_buffer (bytes ++ rest) ≡ ok (take n keys, left ++ rest))
  unfolding write_each read_each pure
  each_prefix zero keys h le =
      let c = carries-each IsBuffer encode_buffer decode_buffer keys (buffer-carries faithful) h in
      (c.bytes, c.bytes, c.written, c.written, λ rest. refl)
  each_prefix (suc n) [] h le = absurd (omega arith)
  each_prefix (suc n) (x ∷ xs) h le =
      let c = buffer-carries faithful x h.0 in
      let (bytes, left, written, others, reads) = each_prefix n xs h.1 (omega arith) in
      (
        c.bytes ++ bytes,
        left,
        rw (c.written, written, ◌>>◌),
        others,
        λ rest. rw (append_assoc c.bytes bytes rest, c.reads (bytes ++ rest), reads rest),
      )

  -- Over primitives that keep the laws of `IsFaithful`, a session request is written with any
  -- number of keys, each within the limit of a buffer, but its count is cut to 16 bits: decoding
  -- gives the first `length keys % 65536` keys, and leaves the encoding of the other keys in front of
  -- the input that follows.
  pub session_request_truncated :
      (request : SessionRequest)
      → All IsBuffer request.participant_keys
      → (bytes : Bytes) × (left : Bytes) × (encode_session_request request ≡ ok bytes)
        × (write_each encode_buffer
              (drop (length request.participant_keys % 2 ^ 16) request.participant_keys)
            ≡ ok left)
        × ((rest : Bytes)
            → decode_session_request (bytes ++ rest)
              ≡ ok (
                record {
                  participant_keys =
                      take (length request.participant_keys % 2 ^ 16) request.participant_keys;
                },
                left ++ rest,
              ))
  unfolding encode_session_request decode_session_request ◌>>◌ ◌>>=◌ pure
  session_request_truncated request h =
      let keys = request.participant_keys in
      let count = faithful.u16_carries (length keys % 2 ^ 16) (omega arith) in
      let (bytes, left, written, others, reads) =
        each_prefix (length keys % 2 ^ 16) keys h (omega arith) in
      (
        count.bytes ++ bytes,
        left,
        rw (count.written, written),
        others,
        λ rest. rw (append_assoc count.bytes bytes rest, count.reads (bytes ++ rest), reads rest),
      )
