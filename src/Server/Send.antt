-- ===== src/Server/Send.antt =====
-- Sending to the clients: `WebSocketConnection::send`, and `send_message`, `notify_peers` and
-- `handle_error` of server/src/service.rs. `deflate` is the compression of protocol/src/zlib.rs, a
-- call of the crate `flate2`; `to_string` the text of an error, which `thiserror` generates.
use mpc_sdk_framework.Prelude.{
  ℕ, Bool, true, false, List, [], ◌∷◌, ◌++◌, Option, none, some, get, nat_eq, list_eq,
  if◌then◌else◌,
}
use mpc_sdk_framework.Messages.{
  Bytes, Uuid, ServerMessage, ResponseMessage, TransparentMessage, opaque, server_message,
}
use mpc_sdk_framework.Wire
use mpc_sdk_framework.Wire.{Result, ok, err, ok_or, BinaryStream}
use mpc_sdk_framework.Encoding.Encode.{encode_response, encode_server}
use mpc_sdk_framework.Channel.Noise.{TransportState, ProtocolState, transport}
use mpc_sdk_framework.Channel.Envelopes.{encrypt_server_channel}
use mpc_sdk_framework.Server.State.{
  Error, panicked, message_mpsc_send, Connection, Serve, serve_then, ◌>>=◌, ◌>>◌, pure, fail, lift,
  lift_io, read_state, read_connection, write_connection,
}

-- What the service calls of the crates `flate2` and `thiserror`.
pub record Runtime : Type 0 where
  pub deflate : Bytes → Option Bytes
  pub to_string : Error → Bytes

abbrev pub internal_server_error : ℕ
internal_server_error = 500

module _ {H T : Type 0} ⦃runtime : Runtime⦄ where
  unfoldable pub send : Uuid → Bytes → Serve H T Unit
  unfolding ◌>>=◌ ◌>>◌ serve_then lift fail read_connection write_connection
  send conn buffer = do
    deflated ← lift (ok_or (runtime.deflate buffer) Wire.io)
    c ← read_connection conn
    if c.closed
        then fail message_mpsc_send
        else write_connection conn (record c { outgoing = c.outgoing ++ deflated ∷ [] })

module _ {H T A : Type 0} where
  -- A call on the protocol state of a connection, which `unwrap` finds there.
  unfoldable pub with_state :
      Uuid → (ProtocolState H T → Result A × ProtocolState H T) → Serve H T A
  with_state conn f w =
      let c : Connection H T = w.connections conn in
      elim c.state [
        | none ↦ (panicked, w)
        | some s ↦
            let (r, s') = f s in
            serve_then (write_connection conn (record c { state = some s' }) w) (λ _. lift r)
      ]

module _ {H T : Type 0} where
  unfoldable pub is_transport : Option (ProtocolState H T) → Bool
  is_transport (some (transport t)) = true
  is_transport s = false

module _ {H T : Type 0} ⦃bin : BinaryStream⦄ ⦃runtime : Runtime⦄ where
  unfoldable pub send_response : Uuid → ResponseMessage → Serve H T Unit
  unfolding send lift_io ◌>>=◌ serve_then
  send_response conn response = do buffer ← lift_io (encode_response response); send conn buffer

module _ {H T : Type 0} ⦃bin : BinaryStream⦄ ⦃noise : TransportState T⦄ ⦃runtime : Runtime⦄ where
  unfoldable pub send_message : Uuid → ServerMessage → Bool → Serve H T Unit
  unfolding with_state send_response
  send_message conn message broadcast = do
    payload ← lift_io (encode_server message)
    envelope ← with_state conn (λ s. encrypt_server_channel s payload broadcast)
    send_response conn (opaque (server_message envelope))

  -- The loop of `notify_peers`; it holds the server's lock, so `active` stays as it is.
  unfoldable pub notify_peers : List Bytes → ServerMessage → Serve H T Unit
  unfolding send_message
  notify_peers [] message = pure tt
  notify_peers (key ∷ keys) message = do
    server ← read_state
    elim (get key server.active) [ none ↦ pure tt | some conn ↦ send_message conn message true ]
    notify_peers keys message

  unfoldable pub handle_error : Uuid → Error → Serve H T Unit
  unfolding is_transport
  handle_error conn error = do
    c ← read_connection conn
    if is_transport c.state
        then send_message conn (ServerMessage.error internal_server_error (runtime.to_string error))
            false
        else send_response conn (
            ResponseMessage.transparent
              (TransparentMessage.error internal_server_error (runtime.to_string error)))
