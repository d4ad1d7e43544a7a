-- ===== src/Client/State.antt =====
-- What a client and its event loop share, behind `Arc<RwLock<_>>` and channels, and the calls that
-- change it: client/src/error.rs, the types of client/src/event_loop.rs and client/src/native.rs. A
-- call runs as one step: what other tasks do while it waits for a lock is not modelled.
use mpc_sdk_framework.Prelude.{
  ℕ, Bool, List, [], ◌∷◌, ◌++◌, Option, some, Map, insert, nat_eq, list_eq, length, ltb,
  if◌then◌else◌,
}
use mpc_sdk_framework.Messages.{
  Bytes, SessionId, MeetingState, SessionState, RequestMessage, ResponseMessage,
}
use mpc_sdk_framework.Keypair.{Keypair}
use mpc_sdk_framework.Wire
use mpc_sdk_framework.Wire.{Result, ok, err, panic}
use mpc_sdk_framework.Channel.Noise.{ProtocolState}
use mpc_sdk_framework.Actions.{done, failed, panicked, waiting, Action, act_then}

-- Where the error holds the hexadecimal text of a key, this holds the key. `snow` stands for every
-- error of that crate, `json` and `websocket` for those of theirs.
pub data Error : Type 0 where
  connect_error server_error : ℕ → Bytes → Error
  no_reply peer_already_exists peer_already_exists_maybe_race : Error
  peer_not_found : Bytes → Error
  not_handshake_state not_transport_state invalid_peer_handshake_message : Error
  web_socket_send stream_reunite : Error
  io protocol : Wire.Error → Error
  snow json websocket request_mpsc_send response_mpsc_send : Error

pub record JsonMessage : Type 0 where
  pub contents : Bytes

pub data Event : Type 0 where
  server_connected peer_connected : Bytes → Event
  binary_message : Bytes → Bytes → Option SessionId → Event
  json_message : Bytes → JsonMessage → Option SessionId → Event
  meeting_created meeting_ready : MeetingState → Event
  session_created session_ready session_active : SessionState → Event
  session_timeout session_finished : SessionId → Event
  close : Event

pub data InternalMessage : Type 0 where
  request : RequestMessage → InternalMessage
  close : InternalMessage

-- The capacity of both channels.
abbrev pub channel_size : ℕ
channel_size = 32

pub record ClientOptions : Type 0 where
  pub keypair : Keypair
  pub server_public_key : Bytes
  pub pattern : Option Bytes

-- The state that the client and the event loop share, with what the two channels hold. `outbound`
-- holds what the client asks of the loop, and `listening` that the loop is there to receive it;
-- `inbound` the responses that the loop has read; `written` the buffers given to the socket.
pub record Client (H T : Type 0) : Type 0 where
  pub options : ClientOptions
  pub server : Option (ProtocolState H T)
  pub peers : Map Bytes (ProtocolState H T)
  pub outbound : List InternalMessage
  pub inbound : List ResponseMessage
  pub written : List Bytes
  pub listening : Bool

abbrev pub Act : Type 0 → Type 0 → Type 0 → Type 0
Act H T A = Action (Client H T) Error A

-- The peer channel is the client's own, with its own error for the wrong state.
unfoldable pub peer_error : Wire.Error → Error
peer_error Wire.not_transport_state = not_transport_state
peer_error e = protocol e

module _ {H T : Type 0} where
  -- `?` on a result of the protocol crate.
  unfoldable pub lift : {A : Type 0} → Result A → Act H T A
  lift (ok a) c = (done a, c)
  lift (err e) c = (failed (protocol e), c)
  lift panic c = (panicked, c)

  -- `?` on the encoding or decoding of a message, whose errors are `std::io::Error`.
  unfoldable pub lift_io : {A : Type 0} → Result A → Act H T A
  lift_io (ok a) c = (done a, c)
  lift_io (err e) c = (failed (io e), c)
  lift_io panic c = (panicked, c)

  -- `?` on a result of the peer channel.
  unfoldable pub lift_peer : {A : Type 0} → Result A → Act H T A
  unfolding peer_error
  lift_peer (ok a) c = (done a, c)
  lift_peer (err e) c = (failed (peer_error e), c)
  lift_peer panic c = (panicked, c)

  unfoldable pub set_server : Option (ProtocolState H T) → Act H T Unit
  set_server state c = (done tt, record c { server = state })

  unfoldable pub set_peers : Map Bytes (ProtocolState H T) → Act H T Unit
  set_peers peers c = (done tt, record c { peers = peers })

  -- `outbound_tx.send`.
  unfoldable pub send : InternalMessage → Act H T Unit
  send message c =
      if c.listening
      then (if ltb (length c.outbound) channel_size
          then (done tt, record c { outbound = c.outbound ++ message ∷ [] })
          else (waiting, c))
      else (failed request_mpsc_send, c)

  -- A call on the state of a peer, which is kept also when the call fails.
  unfoldable pub with_peer :
      {A : Type 0}
      → Bytes
      → ProtocolState H T
      → (ProtocolState H T → Result A × ProtocolState H T)
      → Act H T A
  unfolding act_then set_peers lift_peer
  with_peer key state f c =
      let (r, state') = f state in
      act_then (set_peers (insert key state' c.peers) c) (λ _. lift_peer r)

  -- A call on the state of the server.
  unfoldable pub with_server :
      {A : Type 0}
      → ProtocolState H T
      → (ProtocolState H T → Result A × ProtocolState H T)
      → Act H T A
  unfolding act_then set_server lift
  with_server state f c =
      let (r, state') = f state in act_then (set_server (some state') c) (λ _. lift r)
