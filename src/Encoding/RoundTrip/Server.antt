-- ===== src/Encoding/RoundTrip/Server.antt =====
-- Errors, slots and server messages of protocol/src/encoding/v1/mod.rs, there and back.
use mpc_sdk_framework.Prelude.{
  ℕ, ◌^◌, ◌≡◌, refl, true, false, List, [], ◌∷◌, ◌++◌, append-nil, append_assoc, length, All, arith,
  contains, set_insert, nat_eq, list_eq,
}
use mathlib.Core.Path.{fun_ext}
use mpc_sdk_framework.Messages.{
  Bytes, UserId, ServerMessage, noop, error, new_meeting, meeting_created, join_meeting,
  meeting_ready, new_session, session_connection, session_created, session_ready, session_active,
  session_timeout, close_session, session_finished,
}
use mpc_sdk_framework.Wire.{BinaryStream}
use mpc_sdk_framework.Wire.Writer.{write_u16, write_string, write_bytes, write_each, ◌>>◌}
use mpc_sdk_framework.Wire.Reader.{pure, try_into_status}
use mpc_sdk_framework.Wire.Carries.{
  Carries, IsFaithful, carries-then, carries-known, carries-return, carries-pure,
}
use mpc_sdk_framework.Encoding.Buffers.Laws.{buffer-carries}
use mpc_sdk_framework.Encoding.Encode.{encode_server}
use mpc_sdk_framework.Encoding.Decode.{read_slots, decode_error, decode_server}
use mpc_sdk_framework.Encoding.Valid.{IsUserId, AllNew, IsErrorText, IsServer}
use mpc_sdk_framework.Encoding.RoundTrip.Parts.{
  mod_eq, uuid-carries, user_id-carries, meeting_state-carries, session_state-carries,
  session_request-carries,
}

set_insert_new :
    (x : UserId) (seen : List UserId) → contains x seen ≡ false → set_insert x seen ≡ seen ++ x ∷ []
unfolding set_insert
set_insert_new x seen h = rw h

module _ ⦃bin : BinaryStream⦄ where
  try_into_status-eq :
      (code : ℕ) → bin.is_status_code code ≡ true → try_into_status code ≡ pure code
  unfolding try_into_status pure
  try_into_status-eq code h = fun_ext λ input. rw h

module _ ⦃bin : BinaryStream⦄ (faithful : IsFaithful bin) where
  open faithful use {u8_carries, u16_carries, u32_carries, string_carries}

  pub error-carries :
      (code : ℕ) (message : Bytes)
      → IsErrorText code message
      → Carries (write_u16 code >> write_string message) decode_error (code, message)
  unfolding decode_error
  error-carries code message h = carries-then _ (u16_carries code h.0) (
      rw (try_into_status-eq code h.1)
        (carries-known code _ (carries-return _ _ refl (string_carries message h.2 h.3))))

  slots-carries :
      (slots seen : List UserId)
      → All IsUserId slots
      → AllNew seen slots
      → Carries (write_each write_bytes slots) (read_slots (length slots) seen) (seen ++ slots)
  unfolding write_each read_slots
  slots-carries [] seen h new = rw append-nil (carries-pure seen)
  slots-carries (x ∷ xs) seen h new = carries-then _ (user_id-carries faithful x h.0) (
      rw (set_insert_new x seen new.0, ← append_assoc seen (x ∷ []) xs)
        (slots-carries xs (seen ++ x ∷ []) h.1 new.1))

  pub server-carries : (m : ServerMessage) → IsServer m → Carries (encode_server m) decode_server m
  unfolding encode_server decode_server
  server-carries noop h = absurd h
  server-carries (error code message) h =
      carries-then _ (u8_carries 255 (omega arith))
        (carries-return _ _ refl (error-carries code message h))
  server-carries (new_meeting owner_id slots) h = carries-then _ (u8_carries 1 (omega arith)) (
      carries-then _ (user_id-carries faithful owner_id h.0) (
        rw (mod_eq (length slots) (2 ^ 32) h.1.0) (
          carries-then _ (u32_carries (length slots) h.1.0)
            (carries-return _ _ refl (slots-carries slots [] h.1.1 h.1.2)))))
  server-carries (meeting_created state) h =
      carries-then _ (u8_carries 2 (omega arith))
        (carries-return _ _ refl (meeting_state-carries faithful state h))
  server-carries (join_meeting meeting_id user_id) h = carries-then _ (u8_carries 3 (omega arith)) (
      carries-then _ (uuid-carries faithful meeting_id h.0)
        (carries-return _ _ refl (user_id-carries faithful user_id h.1)))
  server-carries (meeting_ready state) h =
      carries-then _ (u8_carries 4 (omega arith))
        (carries-return _ _ refl (meeting_state-carries faithful state h))
  server-carries (new_session request) h =
      carries-then _ (u8_carries 5 (omega arith))
        (carries-return _ _ refl (session_request-carries faithful request h))
  server-carries (session_connection session_id peer_key) h =
      carries-then _ (u8_carries 8 (omega arith)) (
        carries-then _ (uuid-carries faithful session_id h.0)
          (carries-return _ _ refl (buffer-carries faithful peer_key h.1)))
  server-carries (session_created state) h =
      carries-then _ (u8_carries 6 (omega arith))
        (carries-return _ _ refl (session_state-carries faithful state h))
  server-carries (session_ready state) h =
      carries-then _ (u8_carries 7 (omega arith))
        (carries-return _ _ refl (session_state-carries faithful state h))
  server-carries (session_active state) h =
      carries-then _ (u8_carries 9 (omega arith))
        (carries-return _ _ refl (session_state-carries faithful state h))
  server-carries (session_timeout session_id) h =
      carries-then _ (u8_carries 10 (omega arith))
        (carries-return _ _ refl (uuid-carries faithful session_id h))
  server-carries (close_session session_id) h =
      carries-then _ (u8_carries 11 (omega arith))
        (carries-return _ _ refl (uuid-carries faithful session_id h))
  server-carries (session_finished session_id) h =
      carries-then _ (u8_carries 12 (omega arith))
        (carries-return _ _ refl (uuid-carries faithful session_id h))
