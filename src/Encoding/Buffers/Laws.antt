-- ===== src/Encoding/Buffers/Laws.antt =====
-- Buffers, payloads and the preamble of protocol/src/encoding/v1/mod.rs, there and back.
use mpc_sdk_framework.Prelude.{ℕ, ◌%◌, ◌^◌, ◌≤◌, ◌≡◌, refl, arith, length, le→ltb, eq_list}
use mpc_sdk_framework.Types
use mpc_sdk_framework.Messages.{Bytes}
use mpc_sdk_framework.Wire.{BinaryStream}
use mpc_sdk_framework.Wire.Carries.{
  Carries, IsFaithful, carries-then, carries-map, carries-check, carries-return,
}
use mpc_sdk_framework.Encoding.Buffers.Encode.{encode_buffer, encode_payload, encode_preamble}
use mpc_sdk_framework.Encoding.Buffers.Decode.{
  check_identity, check_version, decode_buffer, decode_payload, decode_preamble,
}

-- What fits the 16-bit length prefix.
abbrev pub IsBuffer : Bytes → Type 0
IsBuffer bs = length bs ≤ Types.max_buffer_size

-- A length that fits is written as it is.
u16_of_length : (n : ℕ) → n ≤ Types.max_buffer_size → n % 2 ^ 16 ≡ n
u16_of_length n h = omega arith

module _ ⦃bin : BinaryStream⦄ (faithful : IsFaithful bin) where
  open faithful use {u16_carries, bytes_carries}

  pub buffer-carries : (bs : Bytes) → IsBuffer bs → Carries (encode_buffer bs) decode_buffer bs
  unfolding encode_buffer decode_buffer
  buffer-carries bs h =
      rw (le→ltb _ _ h, u16_of_length _ h)
        (carries-then _ (u16_carries (length bs) (omega arith)) (bytes_carries bs h))

  pub payload-carries :
      (len : ℕ) (bs : Bytes)
      → len ≤ Types.max_buffer_size
      → IsBuffer bs
      → Carries (encode_payload len bs) decode_payload (len, bs)
  unfolding encode_payload decode_payload
  payload-carries len bs l h =
      rw (le→ltb _ _ l, u16_of_length _ l)
        (carries-then _ (u16_carries len (omega arith))
          (carries-map (λ buffer. (len, buffer)) (buffer-carries bs h)))

  pub preamble-carries : Carries encode_preamble decode_preamble tt
  unfolding encode_preamble decode_preamble check_identity check_version eq_list
  preamble-carries =
      carries-then _ (bytes_carries Types.identity (omega arith))
        (carries-check tt (carries-return _ tt refl (u16_carries Types.version (omega arith))))
