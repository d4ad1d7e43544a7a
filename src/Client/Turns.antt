-- ===== src/Client/Turns.antt =====
-- The socket's side of client/src/native.rs and the loop `run` of client/src/event_loop.rs. The branch
-- that `select!` takes in a turn, and what the socket gives it, are arguments.
use mpc_sdk_framework.Prelude.{
  Bool, false, List, [], ◌∷◌, ◌++◌, Option, none, some, nat_eq, list_eq, length, ltb, if◌then◌else◌,
}
use mpc_sdk_framework.Messages.{Bytes, RequestMessage, ResponseMessage}
use mpc_sdk_framework.Wire
use mpc_sdk_framework.Wire.{BinaryStream, ok_or}
use mpc_sdk_framework.Encoding.Encode.{encode_request}
use mpc_sdk_framework.Encoding.Decode.{decode, decode_response}
use mpc_sdk_framework.Channel.Noise.{TransportState, HandshakeState}
use mpc_sdk_framework.Actions.{Outcome, done, failed, panicked, waiting, act_then, ◌>>=◌, pure}
use mpc_sdk_framework.Client.State.{
  Error, web_socket_send, websocket, channel_size, Event, InternalMessage, request, Client, Act,
  lift, lift_io,
}
use mpc_sdk_framework.Client.Options.{Builder, Codecs}
use mpc_sdk_framework.Client.Incoming.{handle_incoming_message}

pub data WsMessage : Type 0 where
  binary : Bytes → WsMessage
  other : WsMessage

-- How the socket answers in a turn: whether it takes a buffer, whether it flushes then, and the error
-- of closing it, if any.
pub record Socket : Type 0 where
  pub sends : Bool
  pub flushes : Bool
  pub closing : Option Error

-- A branch of `select!`: the next item of the socket's stream (a message, an error, or its end), with
-- nothing else received; a request of the client, with how the socket answers; a response.
pub data Turn : Type 0 where
  message_in : WsMessage → Turn
  message_error message_end : Turn
  message_out : Socket → Turn
  event_message : Turn

pub data Item : Type 0 where
  ok : Event → Item
  err : Error → Item

-- Whether the loop goes on, has ended, has panicked, or waits for a channel that only itself empties.
pub data Progress : Type 0 where
  running ended crashed stuck : Progress

module _ {H T : Type 0} where
  -- `inbound_tx.send`.
  unfoldable pub send_inbound : ResponseMessage → Act H T Unit
  send_inbound message c =
      if ltb (length c.inbound) channel_size
      then (done tt, record c { inbound = c.inbound ++ message ∷ [] })
      else (waiting, c)

  -- `ws_writer.send` and `flush`.
  unfoldable pub send_socket : Socket → Bytes → Act H T Unit
  send_socket socket buffer c =
      let sent : Client H T = record c { written = c.written ++ buffer ∷ [] } in
      if socket.sends
      then (if socket.flushes then (done tt, sent) else (failed web_socket_send, sent))
      else (failed web_socket_send, c)

  -- Errors are yielded, and the loop goes on.
  unfoldable pub report : Outcome Error Unit × Client H T → Progress × List Item × Client H T
  report (done tt, c) = (running, [], c)
  report (failed e, c) = (running, err e ∷ [], c)
  report (panicked, c) = (crashed, [], c)
  report (waiting, c) = (stuck, [], c)

  unfoldable pub report_event :
      Outcome Error (Option Event) × Client H T → Progress × List Item × Client H T
  report_event (done none, c) = (running, [], c)
  report_event (done (some event), c) = (running, ok event ∷ [], c)
  report_event (failed e, c) = (running, err e ∷ [], c)
  report_event (panicked, c) = (crashed, [], c)
  report_event (waiting, c) = (stuck, [], c)

  -- The loop drops its ends of the channels when it ends.
  unfoldable pub closed : Option Error → Client H T → Progress × List Item × Client H T
  closed none c = (ended, ok Event.close ∷ [], record c { listening = false })
  closed (some e) c = (ended, err e ∷ ok Event.close ∷ [], record c { listening = false })

module _ {H T : Type 0} ⦃bin : BinaryStream⦄ ⦃codecs : Codecs⦄ where
  unfoldable pub read_message : WsMessage → Act H T Unit
  unfolding ◌>>=◌ act_then lift lift_io decode send_inbound pure
  read_message (binary buffer) = do
    inflated ← lift (ok_or (codecs.inflate buffer) Wire.io)
    response ← lift_io (decode decode_response inflated)
    send_inbound response
  read_message other = pure tt

  unfoldable pub send_message : Socket → RequestMessage → Act H T Unit
  unfolding ◌>>=◌ act_then lift lift_io send_socket
  send_message socket message = do
    encoded ← lift_io (encode_request message)
    deflated ← lift (ok_or (codecs.deflate encoded) Wire.io)
    send_socket socket deflated

  unfoldable pub message_out_turn :
      Socket → List InternalMessage → Client H T → Progress × List Item × Client H T
  unfolding report send_message closed
  message_out_turn socket [] c = (running, [], c)
  message_out_turn socket (request message ∷ rest) c =
      report (send_message socket message (record c { outbound = rest }))
  message_out_turn socket (InternalMessage.close ∷ rest) c =
      closed socket.closing (record c { outbound = rest })

module _ {H T : Type 0} ⦃bin : BinaryStream⦄ ⦃noise : TransportState T⦄
    ⦃handshakes : HandshakeState H T⦄ ⦃builder : Builder H⦄ ⦃codecs : Codecs⦄ where
  unfoldable pub event_turn : List ResponseMessage → Client H T → Progress × List Item × Client H T
  unfolding report_event handle_incoming_message
  event_turn [] c = (running, [], c)
  event_turn (message ∷ rest) c =
      report_event (handle_incoming_message message (record c { inbound = rest }))

  unfoldable pub turn : Turn → Client H T → Progress × List Item × Client H T
  unfolding report read_message message_out_turn event_turn
  turn (message_in message) c = report (read_message message c)
  turn message_error c = (running, err websocket ∷ [], c)
  turn message_end c = (running, [], c)
  turn (message_out socket) c = message_out_turn socket c.outbound c
  turn event_message c = event_turn c.inbound c

  -- The stream of items that turns yield, until the loop stops.
  unfoldable pub run : List Turn → Client H T → Progress × List Item × Client H T
  unfolding turn
  run [] c = (running, [], c)
  run (t ∷ ts) c =
      let (progress, items, c1) = turn t c in
      let (last, more, c2) = run ts c1 in
      elim progress [ running ↦ (last, items ++ more, c2) | stopped ↦ (stopped, items, c1) ]
