-- ===== src/Examples/Messages.antt =====
-- Messages of protocol/src/protocol.rs, encoded and decoded.
use mpc_sdk_framework.Prelude.{
  drop, ◌%◌, ◌^◌, ◌≡◌, ◌≢◌, refl, true, [], ◌∷◌, ◌++◌, some, take, arith, contains, nat_eq, list_eq,
}
use mpc_sdk_framework.Messages.{
  Bytes, SealedEnvelope, RequestMessage, ResponseMessage, ServerMessage, SessionRequest,
  peer_message, error, new_meeting, blob,
}
use mpc_sdk_framework.Wire.{ok, panic}
use mpc_sdk_framework.Wire.Carries.{Carries}
use mpc_sdk_framework.Wire.LittleEndian.{
  little_endian, little_endian-IsFaithful, is_status_code_500, is_utf8-any,
}
use mpc_sdk_framework.Encoding.Encode.{
  encode_request, encode_response, encode_server, encode_session_request,
}
use mpc_sdk_framework.Encoding.Decode.{
  decode, decode_request, decode_response, decode_server, decode_session_request,
}
use mpc_sdk_framework.Encoding.Preamble.{
  HasPreamble, decode_request-HasPreamble, decode_response-HasPreamble,
}
use mpc_sdk_framework.Encoding.Untrusted.{decode-ne-panic}
use mpc_sdk_framework.Encoding.Limits.{session_request_truncated}
use mpc_sdk_framework.Wire.Writer.{write_each}
use mpc_sdk_framework.Encoding.Buffers.{encode_buffer}
use mpc_sdk_framework.Encoding.RoundTrip.Messages.{
  decode_server-encode_server, decode_request-encode_request, decode_response-encode_response,
}

abbrev session_id : Bytes
session_id = 1 ∷ 2 ∷ 3 ∷ 4 ∷ 5 ∷ 6 ∷ 7 ∷ 8 ∷ 9 ∷ 10 ∷ 11 ∷ 12 ∷ 13 ∷ 14 ∷ 15 ∷ 16 ∷ []

abbrev user_id : Bytes
user_id = session_id ++ session_id

abbrev envelope : SealedEnvelope
envelope = record {
  encoding = blob;
  chunks = record { length = 2; contents = 7 ∷ 8 ∷ [] } ∷ [];
  broadcast = true;
}

abbrev to_peer : RequestMessage
to_peer = RequestMessage.opaque (peer_message (9 ∷ []) (some session_id) envelope)

abbrev failure : ResponseMessage
failure = ResponseMessage.transparent (error 500 (110 ∷ 111 ∷ []))

abbrev meeting : ServerMessage
meeting = new_meeting user_id (user_id ∷ [])

abbrev two_keys : SessionRequest
two_keys = record { participant_keys = (1 ∷ []) ∷ (2 ∷ []) ∷ [] }

decode_request-encode_request_example : Carries (encode_request to_peer) decode_request to_peer
decode_request-encode_request_example =
    decode_request-encode_request little_endian-IsFaithful to_peer
      (omega arith, refl, (tt, omega arith, ((omega arith, omega arith), tt)))

decode_response-encode_response_example : Carries (encode_response failure) decode_response failure
decode_response-encode_response_example =
    decode_response-encode_response little_endian-IsFaithful failure
      (omega arith, is_status_code_500, is_utf8-any (110 ∷ 111 ∷ []), omega arith)

decode_server-encode_server_example :
    (bytes : Bytes) × (encode_server meeting ≡ ok bytes)
    × ((rest : Bytes) → decode decode_server (bytes ++ rest) ≡ ok meeting)
unfolding contains
decode_server-encode_server_example =
    decode_server-encode_server little_endian-IsFaithful meeting
      (refl, (omega arith, (refl, tt), (refl, tt)))

decode-ne-panic_example :
    (decode_request (77 ∷ 80 ∷ []) ≢ panic)
    × (decode_response (77 ∷ 80 ∷ []) ≢ panic)
    × (decode_server (77 ∷ 80 ∷ []) ≢ panic)
decode-ne-panic_example = decode-ne-panic (77 ∷ 80 ∷ []) little_endian-IsFaithful

-- The bytes of the messages.
abbrev request_bytes : Carries (encode_request to_peer) decode_request to_peer
request_bytes =
    decode_request-encode_request little_endian-IsFaithful to_peer
      (omega arith, refl, (tt, omega arith, ((omega arith, omega arith), tt)))

abbrev response_bytes : Carries (encode_response failure) decode_response failure
response_bytes =
    decode_response-encode_response little_endian-IsFaithful failure
      (omega arith, is_status_code_500, is_utf8-any (110 ∷ 111 ∷ []), omega arith)

decode_request-HasPreamble_example : HasPreamble (request_bytes.bytes ++ 42 ∷ [])
decode_request-HasPreamble_example =
    decode_request-HasPreamble (request_bytes.bytes ++ 42 ∷ []) (42 ∷ []) to_peer
      (request_bytes.reads (42 ∷ []))

decode_response-HasPreamble_example : HasPreamble (response_bytes.bytes ++ 42 ∷ [])
decode_response-HasPreamble_example =
    decode_response-HasPreamble (response_bytes.bytes ++ 42 ∷ []) (42 ∷ []) failure
      (response_bytes.reads (42 ∷ []))

session_request_truncated_example :
    (bytes : Bytes) × (left : Bytes) × (encode_session_request two_keys ≡ ok bytes)
    × (write_each encode_buffer (drop (2 % 2 ^ 16) two_keys.participant_keys) ≡ ok left)
    × ((rest : Bytes)
        → decode_session_request (bytes ++ rest)
          ≡ ok (
            record { participant_keys = take (2 % 2 ^ 16) two_keys.participant_keys },
            left ++ rest,
          ))
session_request_truncated_example =
    session_request_truncated little_endian-IsFaithful two_keys (omega arith, (omega arith, tt))
