-- ===== src/Encoding/RoundTrip/Parts.antt =====
-- Identifiers, handshakes, envelopes and states of protocol/src/encoding/v1/mod.rs, there and back.
use mpc_sdk_framework.Prelude.{ℕ, ◌%◌, ◌^◌, ◌<◌, ◌≡◌, refl, List, length, arith}
use mathlib.Core.Path.{fun_ext}
use mpc_sdk_framework.Messages.{
  Bytes, HandshakeMessage, Encoding, MeetingState, SessionRequest, SessionState, Chunk,
  SealedEnvelope, noop, initiator, responder, blob, json,
}
use mpc_sdk_framework.Messages.Kinds.{encoding_kind}
use mpc_sdk_framework.Wire.{BinaryStream}
use mpc_sdk_framework.Wire.Writer.{write_u16, write_u32, write_bool, write_bytes, write_each, ◌>>◌}
use mpc_sdk_framework.Wire.Reader.{
  ◌>>=◌, pure, read_u32, read_bool, read_each, into_array, try_into_array,
}
use mpc_sdk_framework.Wire.Carries.{
  Carries, IsFaithful, carries-then, carries-known, carries-return, carries-each,
}
use mpc_sdk_framework.Encoding.Buffers.{encode_buffer, decode_buffer}
use mpc_sdk_framework.Encoding.Buffers.Laws.{IsBuffer, buffer-carries, payload-carries}
use mpc_sdk_framework.Encoding.Encode.{
  encode_handshake, encode_chunk, encode_envelope, encode_meeting_state, encode_session_request,
  encode_session_state,
}
use mpc_sdk_framework.Encoding.Decode.{
  read_uuid, read_user_id, decode_handshake, decode_chunk, decode_encoding, decode_envelope,
  decode_keys, decode_meeting_state, decode_session_request, decode_session_state,
}
use mpc_sdk_framework.Encoding.Valid.{
  IsUuid, IsUserId, AreKeys, IsHandshake, IsEncoding, IsChunk, IsEnvelope, IsMeetingState,
  IsSessionState,
}

encoding_kind-lt : (c : Encoding) → encoding_kind c < 2 ^ 8
unfolding encoding_kind
encoding_kind-lt noop = omega arith
encoding_kind-lt _ = omega arith

decode_encoding-kind : (c : Encoding) → IsEncoding c → decode_encoding (encoding_kind c) ≡ pure c
unfolding encoding_kind decode_encoding
decode_encoding-kind noop h = absurd h
decode_encoding-kind blob h = refl
decode_encoding-kind json h = refl

pub mod_eq : (n m : ℕ) → n < m → n % m ≡ n
mod_eq n m h = grind arith

-- A vector of the right length is an array.
try_into_array-eq : (n : ℕ) (bs : Bytes) → length bs ≡ n → try_into_array n bs ≡ pure bs
unfolding try_into_array pure
try_into_array-eq n bs h = fun_ext λ input. ground arith

into_array-eq : (n : ℕ) (bs : Bytes) → length bs ≡ n → into_array n bs ≡ pure bs
unfolding into_array pure
into_array-eq n bs h = fun_ext λ input. ground arith

module _ ⦃bin : BinaryStream⦄ (faithful : IsFaithful bin) where
  open faithful use {u8_carries, u16_carries, u32_carries, bool_carries, bytes_carries}

  pub uuid-carries : (id : Bytes) → IsUuid id → Carries (write_bytes id) read_uuid id
  unfolding read_uuid
  uuid-carries id h =
      carries-return _ id (try_into_array-eq 16 id h) (rw h at (bytes_carries id (omega arith)))

  pub user_id-carries : (id : Bytes) → IsUserId id → Carries (write_bytes id) read_user_id id
  unfolding read_user_id
  user_id-carries id h =
      carries-return _ id (into_array-eq 32 id h) (rw h at (bytes_carries id (omega arith)))

  pub handshake-carries :
      (m : HandshakeMessage) → IsHandshake m → Carries (encode_handshake m) decode_handshake m
  unfolding encode_handshake decode_handshake
  handshake-carries noop h = absurd h
  handshake-carries (initiator len buf) h =
      carries-then _ (u8_carries 1 (omega arith))
        (carries-return _ _ refl (payload-carries faithful len buf h.0 h.1))
  handshake-carries (responder len buf) h =
      carries-then _ (u8_carries 2 (omega arith))
        (carries-return _ _ refl (payload-carries faithful len buf h.0 h.1))

  chunk-carries : (c : Chunk) → IsChunk c → Carries (encode_chunk c) decode_chunk c
  unfolding encode_chunk decode_chunk
  chunk-carries c h = carries-return _ c refl (payload-carries faithful c.length c.contents h.0 h.1)

  -- What stands behind the encoding of an envelope.
  envelope_rest-carries :
      (encoding : Encoding) (e : SealedEnvelope)
      → IsEnvelope e
      → Carries
          (write_bool e.broadcast
            >> (write_u32 (length e.chunks % 2 ^ 32) >> write_each encode_chunk e.chunks))
          (read_bool >>= λ broadcast. read_u32 >>= λ num_chunks.
            read_each num_chunks decode_chunk >>= λ chunks.
            pure (record { encoding = encoding; chunks = chunks; broadcast = broadcast }))
          (record e { encoding = encoding })
  envelope_rest-carries encoding e h = carries-then _ (bool_carries e.broadcast) (
      rw (mod_eq (length e.chunks) (2 ^ 32) h.1) (
        carries-then _ (u32_carries (length e.chunks) h.1) (
          carries-return _ _ refl
            (carries-each IsChunk encode_chunk decode_chunk e.chunks chunk-carries h.2))))

  pub envelope-carries :
      (e : SealedEnvelope) → IsEnvelope e → Carries (encode_envelope e) decode_envelope e
  unfolding encode_envelope decode_envelope
  envelope-carries e h =
      carries-then _ (u8_carries (encoding_kind e.encoding) (encoding_kind-lt e.encoding)) (
        rw (decode_encoding-kind e.encoding h.0)
          (carries-known e.encoding _ (envelope_rest-carries e.encoding e h)))

  keys-carries :
      (keys : List Bytes)
      → AreKeys keys
      → Carries (write_u16 (length keys % 2 ^ 16) >> write_each encode_buffer keys) decode_keys keys
  unfolding decode_keys
  keys-carries keys h = rw (mod_eq (length keys) (2 ^ 16) h.0) (
      carries-then _ (u16_carries (length keys) h.0)
        (carries-each IsBuffer encode_buffer decode_buffer keys (buffer-carries faithful) h.1))

  pub meeting_state-carries :
      (s : MeetingState)
      → IsMeetingState s
      → Carries (encode_meeting_state s) decode_meeting_state s
  unfolding encode_meeting_state decode_meeting_state
  meeting_state-carries s h =
      carries-then _ (uuid-carries s.meeting_id h.0)
        (carries-return _ _ refl (keys-carries s.registered_participants h.1))

  pub session_state-carries :
      (s : SessionState)
      → IsSessionState s
      → Carries (encode_session_state s) decode_session_state s
  unfolding encode_session_state decode_session_state
  session_state-carries s h =
      carries-then _ (uuid-carries s.session_id h.0)
        (carries-return _ _ refl (keys-carries s.all_participants h.1))

  pub session_request-carries :
      (s : SessionRequest)
      → AreKeys s.participant_keys
      → Carries (encode_session_request s) decode_session_request s
  unfolding encode_session_request decode_session_request
  session_request-carries s h = carries-return _ _ refl (keys-carries s.participant_keys h)
