-- ===== src/Examples/Clients.antt =====
-- A client of client/src with its event loop, and its keypair.
use mpc_sdk_framework.Prelude.{
  zero, suc, ◌+◌, ◌⊎◌, remove, List, map, take, ltb, if◌then◌else◌, ℕ, ◌^◌, ◌<◌, ◌≡◌, refl, ap,
  true, false, not, [], ◌∷◌, ◌++◌, none, some, get, insert, nat_eq, list_eq, eq_list, length,
  length-append, arith,
}
use mpc_sdk_framework.Messages.{
  Bytes, SealedEnvelope, ResponseMessage, opaque, transparent, server_message, peer_message,
  peer_handshake, initiator, responder, blob, close_session,
}
use mpc_sdk_framework.Wire.{Result, ok, err, panic}
use mpc_sdk_framework.Wire.Carries.{Carries}
use mpc_sdk_framework.Wire.LittleEndian.{
  little_endian, little_endian-IsFaithful, put_number, length-put_number, u8_write-eq,
  bytes_write-eq,
}
use mpc_sdk_framework.Wire.Writer.{write_u8, write_bytes, ◌>>◌, prepend}
use mpc_sdk_framework.Encoding.Encode.{encode_server, encode_server_body, encode_response}
use mpc_sdk_framework.Encoding.Decode.{decode, decode_response}
use mpc_sdk_framework.Encoding.Valid.{IsEnvelope}
use mpc_sdk_framework.Encoding.RoundTrip.Messages.{decode_response-encode_response}
use mpc_sdk_framework.Channel.Noise.{transport}
use mpc_sdk_framework.Channel.Counter.{counter, counter-IsChannel, SameCount}
use mpc_sdk_framework.Actions.{done, failed, panicked}
use mpc_sdk_framework.Client.State.{
  Client, ClientOptions, InternalMessage, not_handshake_state, peer_connected,
}
use mpc_sdk_framework.Client.Options.{Builder, Codecs, params}
use mpc_sdk_framework.Client.Calls.{request, relay, connect_peer}
use mpc_sdk_framework.Client.Incoming.{handle_incoming_message}
use mpc_sdk_framework.Client.Turns.{message_out, event_message, Socket, stuck, run}
use mpc_sdk_framework.Client.Serving.{CanSend, queued, served, request-served}
use mpc_sdk_framework.Client.Peering.{payload_event, relay_delivered}
use mpc_sdk_framework.Client.Handshake.{IsPattern, Finishes, peers_connect}
use mpc_sdk_framework.Client.Kept.{is_established}
use mpc_sdk_framework.Client.Established.{is_answer_from, is_established_iff}
use mpc_sdk_framework.Client.Failing.{handle_unasked, request-handle_failed}
use mpc_sdk_framework.Client.Ending.{IsClosed, run-IsClosed}
use mpc_sdk_framework.Client.Filling.{Received, IsReceived, received_turn, run-received}
use mpc_sdk_framework.Server.State.{write_connection}
use mpc_sdk_framework.Server.Requests.{handle_request}
use mpc_sdk_framework.Examples.Server.{handshakes, runtime, two_clients}

instance abbrev pub builder : Builder ℕ
builder = record {
  build_initiator = λ p private public. some 0;
  build_responder = λ p private public. some 0;
}

instance abbrev pub codecs : Codecs
codecs = record {
  parse = λ name. some name;
  status_text = λ status. [];
  hex = λ bytes. bytes;
  deflate = λ buffer. some buffer;
  inflate = λ buffer. some buffer;
}

abbrev pub options : ℕ → ClientOptions
options n = record {
  keypair = record { public = n ∷ []; private = n ∷ [] };
  server_public_key = 9 ∷ [];
  pattern = none;
}

-- A client that is connected with the server, and knows one peer or none.
abbrev pub alone : ℕ → Client ℕ ℕ
alone n = record {
  options = options n;
  server = some (transport 0);
  peers = [];
  outbound = [];
  inbound = [];
  written = [];
  listening = true;
}

abbrev pub knowing : ℕ → ℕ → Client ℕ ℕ
knowing n peer = record (alone n) { peers = (peer ∷ [], transport 0) ∷ [] }

can_send : (c : Client ℕ ℕ) → c.listening ≡ true → c.outbound ≡ [] → CanSend c
can_send c on empty = record { listening = on; room = rw empty (omega arith) }

abbrev session_id : Bytes
session_id = 1 ∷ 2 ∷ 3 ∷ 4 ∷ 5 ∷ 6 ∷ 7 ∷ 8 ∷ 9 ∷ 10 ∷ 11 ∷ 12 ∷ 13 ∷ 14 ∷ 15 ∷ 16 ∷ []

result_length : Result Bytes → ℕ
result_length (ok bytes) = length bytes
result_length (err e) = 0
result_length panic = 0

small :
    (payload : Bytes)
    → encode_server (close_session session_id) ≡ ok payload
    → length payload < 2 ^ 32
unfolding result_length encode_server encode_server_body write_u8 write_bytes ◌>>◌ prepend
small payload e =
    let g : _ =
      rw
        (
          encode_server,
          encode_server_body,
          write_u8,
          u8_write-eq 11,
          write_bytes,
          bytes_write-eq session_id (omega arith),
          ◌>>◌,
          prepend,
        )
        at e in
    let f : length (put_number 1 11 ++ session_id) ≡ length payload = ap result_length g in
    let size = length-append (put_number 1 11) session_id in
    let kind = length-put_number 1 11 in omega arith

request-served_example :
    (envelope : SealedEnvelope) × (a' : ℕ) × (b' : ℕ) × (request
        (close_session session_id)
        (alone 1)
      ≡ (
        done tt,
        queued
            (InternalMessage.request (opaque (server_message envelope)))
            (record (alone 1) { server = some (transport a') }),
      ))
    × IsEnvelope envelope
    × (handle_request [] 8 (1 ∷ []) (opaque (server_message envelope)) two_clients
        ≡ served [] 8
            (1 ∷ [])
            (1 ∷ [])
            (close_session session_id)
            (write_connection
              (1 ∷ [])
              (record (two_clients.connections (1 ∷ [])) { state = some (transport b') })
              two_clients).1)
    × SameCount a' b'
unfolding get eq_list
request-served_example =
    request-served little_endian-IsFaithful counter-IsChannel (close_session session_id) (alone 1)
      two_clients [] 8 (1 ∷ []) (1 ∷ []) 0 0 refl small (can_send (alone 1) refl refl) refl refl
      refl refl

relay_delivered_example :
    (envelope : SealedEnvelope) × (a' : ℕ) × (b' : ℕ) × (relay
        (2 ∷ [])
        (5 ∷ 6 ∷ [])
        blob
        false
        none
        (knowing 1 2)
      ≡ (
        done tt,
        queued
            (InternalMessage.request (opaque (peer_message (2 ∷ []) none envelope)))
            (record (knowing 1 2) { peers = insert (2 ∷ []) (transport a') (knowing 1 2).peers }),
      ))
    × IsEnvelope envelope
    × (handle_incoming_message (opaque (peer_message (1 ∷ []) none envelope)) (knowing 2 1) ≡ (
      done (payload_event (1 ∷ []) none blob (5 ∷ 6 ∷ [])),
      record (knowing 2 1) { peers = insert (1 ∷ []) (transport b') (knowing 2 1).peers },
    ))
    × SameCount a' b'
unfolding get eq_list
relay_delivered_example =
    relay_delivered counter-IsChannel (2 ∷ []) (1 ∷ []) (5 ∷ 6 ∷ []) blob false none (knowing 1 2)
      (knowing 2 1) 0 0 (omega arith) tt (can_send (knowing 1 2) refl refl) refl refl refl

-- The handshake that counts its messages, finished by any two keypairs.
counting : Finishes handshakes SameCount 0 0
counting = record {
  first = 0 ∷ [];
  second = 1 ∷ [];
  got = [];
  gotten = [];
  i1 = 1;
  i2 = 2;
  r1 = 1;
  r2 = 2;
  at_i = 2;
  at_r = 2;
  i_writes = refl;
  first_fits = omega arith;
  r_reads = refl;
  r_writes = refl;
  second_fits = omega arith;
  i_reads = refl;
  i_enters = refl;
  r_enters = refl;
  paired = refl;
}

counting-IsPattern : (p : Bytes) → IsPattern builder handshakes SameCount (λ keypair. Unit {0}) p
counting-IsPattern p = record { finishes = λ a b one other. (0, 0, refl, refl, counting) }

peers_connect_example :
    (n m : ℕ) × (hello answer : Bytes) × (c1 c2 d1 : Client ℕ ℕ) × (a b : ℕ) × (connect_peer
        (2 ∷ [])
        (alone 1)
      ≡ (
        done tt,
        queued
            (InternalMessage.request (transparent (peer_handshake (2 ∷ []) (initiator n hello))))
            c1,
      ))
    × (handle_incoming_message (transparent (peer_handshake (1 ∷ []) (initiator n hello))) (alone 2)
        ≡ (
          done (some (peer_connected (1 ∷ []))),
          queued
              (InternalMessage.request (transparent (peer_handshake (1 ∷ []) (responder m answer))))
              d1,
        ))
    × (handle_incoming_message (transparent (peer_handshake (2 ∷ []) (responder m answer))) c1
        ≡ (done (some (peer_connected (2 ∷ []))), c2))
    × (get (2 ∷ []) c2.peers ≡ some (transport a))
    × (get (1 ∷ []) d1.peers ≡ some (transport b))
    × SameCount a b
unfolding get params
peers_connect_example =
    peers_connect (counting-IsPattern _) (alone 1) (alone 2) refl refl tt tt refl refl
      (can_send (alone 1) refl refl) (can_send (alone 2) refl refl)

is_established_iff_example :
    (is_established
        (2 ∷ [])
        (handle_incoming_message
          (transparent (peer_handshake (2 ∷ []) (responder 1 (6 ∷ []))))
          (knowing 1 2)).1
      ≡ not
          (is_answer_from (2 ∷ []) (transparent (peer_handshake (2 ∷ []) (responder 1 (6 ∷ []))))))
    × ((is_answer_from (2 ∷ []) (transparent (peer_handshake (2 ∷ []) (responder 1 (6 ∷ []))))
          ≡ false)
        ⊎ (handle_incoming_message
              (transparent (peer_handshake (2 ∷ []) (responder 1 (6 ∷ []))))
              (knowing 1 2)
            ≡ (
              failed not_handshake_state,
              record (knowing 1 2) { peers = remove (2 ∷ []) (knowing 1 2).peers },
            )))
unfolding is_established get eq_list
is_established_iff_example =
    is_established_iff (2 ∷ []) (transparent (peer_handshake (2 ∷ []) (responder 1 (6 ∷ []))))
      (knowing 1 2) refl

request-handle_failed_example :
    request (close_session session_id) (record (alone 1) { server = none })
    ≡ (panicked, record (alone 1) { server = none })
request-handle_failed_example =
    request-handle_failed 1 (6 ∷ []) (alone 1) (record (alone 1) { server = none })
      not_handshake_state (close_session session_id) (handle_unasked 1 (6 ∷ []) (alone 1) 0 refl)

abbrev closing_client : Client ℕ ℕ
closing_client = record (alone 1) {
  outbound =
      InternalMessage.request
        (opaque (server_message (record { encoding = blob; chunks = []; broadcast = false })))
      ∷ InternalMessage.close
      ∷ [];
}

abbrev failing : Socket
failing = record { sends = false; flushes = true; closing = none }

run-IsClosed_example :
    IsClosed (run (message_out failing ∷ message_out failing ∷ []) closing_client)
run-IsClosed_example =
    run-IsClosed little_endian-IsFaithful
      (opaque (server_message (record { encoding = blob; chunks = []; broadcast = false })) ∷ []) []
      failing (failing ∷ []) closing_client ((tt, omega arith, tt), tt) refl refl

abbrev failure : ResponseMessage
failure = opaque (server_message (record { encoding = blob; chunks = []; broadcast = false }))

abbrev failure_bytes : Carries (encode_response failure) decode_response failure
failure_bytes =
    decode_response-encode_response little_endian-IsFaithful failure (tt, omega arith, tt)

decoded : decode decode_response (failure_bytes.bytes ++ []) ≡ ok failure
unfolding decode
decoded = rw (failure_bytes.reads []) refl

abbrev arriving : Received
arriving = record {
  buffer = failure_bytes.bytes ++ [];
  inflated = failure_bytes.bytes ++ [];
  response = failure;
}

arriving-IsReceived : IsReceived arriving
arriving-IsReceived = record { inflates = refl; decodes = decoded }

abbrev copies : ℕ → List ResponseMessage
copies zero = []
copies (suc n) = failure ∷ copies n

-- A client with 31 responses that it has not handled.
abbrev busy : Client ℕ ℕ
busy = record (alone 1) { inbound = copies 31 }

run-received_example :
    run (map received_turn (arriving ∷ arriving ∷ []) ++ event_message ∷ []) busy ≡ (
      if ltb 32 (length busy.inbound + 2)
      then (stuck, [], record busy { inbound = take 32 (busy.inbound ++ failure ∷ failure ∷ []) })
      else run
          (event_message ∷ [])
          (record busy { inbound = busy.inbound ++ failure ∷ failure ∷ [] }))
run-received_example =
    run-received (arriving ∷ arriving ∷ []) (event_message ∷ []) busy
      (arriving-IsReceived, (arriving-IsReceived, tt)) (omega arith)
