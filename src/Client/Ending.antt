-- ===== src/Client/Ending.antt =====
-- When the loop `run` of client/src/event_loop.rs ends.
use mpc_sdk_framework.Prelude.{
  arith, ◌≡◌, refl, false, List, [], ◌∷◌, ◌++◌, map, Option, none, some, length, Bool-cases,
  Option-cases, inl, inr, All,
}
use mpc_sdk_framework.Messages.{Bytes, RequestMessage}
use mpc_sdk_framework.Wire.{BinaryStream}
use mpc_sdk_framework.Wire.Carries.{IsFaithful}
use mpc_sdk_framework.Encoding.Valid.{IsRequest}
use mpc_sdk_framework.Encoding.RoundTrip.Messages.{decode_request-encode_request}
use mpc_sdk_framework.Channel.Noise.{TransportState, HandshakeState}
use mpc_sdk_framework.Actions.{act_then, ◌>>=◌}
use mpc_sdk_framework.Client.State.{Client, InternalMessage, Event, lift, lift_io}
use mpc_sdk_framework.Client.Options.{Builder, Codecs}
use mpc_sdk_framework.Client.Turns.{
  Turn, message_out, Socket, Item, ok as item_ok, Progress, running, ended, turn, run,
  message_out_turn, send_message, send_socket, report, closed,
}

-- The last item.
unfoldable pub last_item : List Item → Option Item
last_item [] = none
last_item (item ∷ []) = some item
last_item (item ∷ other ∷ items) = last_item (other ∷ items)

last_item-append :
    (items more : List Item) (item : Item)
    → last_item more ≡ some item
    → last_item (items ++ more) ≡ some item
unfolding last_item
last_item-append [] more item h = h
last_item-append (i ∷ []) [] item h = cc h
last_item-append (i ∷ []) (j ∷ more) item h = h
last_item-append (i ∷ j ∷ items) more item h = last_item-append (j ∷ items) more item h

module _ {H T : Type 0} where
  -- The loop has ended with `Event::Close`, and nothing can be sent to it.
  pub record IsClosed (r : Progress × List Item × Client H T) : Type 0 where
    pub progress : r.0 ≡ ended
    pub last : last_item r.1 ≡ some (item_ok Event.close)
    pub deaf : r.2.listening ≡ false

  -- A queue that the loop has taken an entry of.
  record IsTaken (rest : List InternalMessage) (r : Progress × List Item × Client H T)
      : Type 0 where
    progress : r.0 ≡ running
    queue : r.2.outbound ≡ rest

  writes :
      (socket : Socket) (buffer : Bytes) (c : Client H T)
      → IsTaken c.outbound (report (send_socket socket buffer c))
  unfolding send_socket report
  writes socket buffer c = elim (Bool-cases socket.sends) [
    | inr refused ↦ rw (refused, report) (record { progress = refl; queue = refl })
    | inl sent ↦ elim (Bool-cases socket.flushes) [
      | inr refused ↦ rw (sent, refused, report) (record { progress = refl; queue = refl })
      | inl flushed ↦ rw (sent, flushed, report) (record { progress = refl; queue = refl })
    ]
  ]

module _ {H T : Type 0} ⦃bin : BinaryStream⦄ ⦃codecs : Codecs⦄ (faithful : IsFaithful bin) where
  -- A valid request is taken from the queue, whatever becomes of it.
  sends_on :
      (socket : Socket) (message : RequestMessage) (c : Client H T)
      → IsRequest message
      → IsTaken c.outbound (report (send_message socket message c))
  unfolding send_message ◌>>=◌ act_then lift lift_io send_socket report
  sends_on socket message c valid =
      let carried = decode_request-encode_request faithful message valid in
      elim (Option-cases (codecs.deflate carried.bytes)) [
        | inl p ↦
            rw (carried.written, act_then, lift_io, p, act_then, lift, report)
              (record { progress = refl; queue = refl })
        | inr (deflated, p) ↦
            rw (carried.written, act_then, lift_io, p, act_then, lift) (writes socket deflated c)
      ]

module _ {H T : Type 0} ⦃bin : BinaryStream⦄ ⦃noise : TransportState T⦄
    ⦃handshakes : HandshakeState H T⦄ ⦃builder : Builder H⦄ ⦃codecs : Codecs⦄ where
  goes_on :
      (t : Turn) (ts : List Turn) (c : Client H T)
      → (turn t c).0 ≡ running
      → IsClosed (run ts (turn t c).2)
      → IsClosed (run (t ∷ ts) c)
  unfolding run
  goes_on t ts c going h =
      rw (run, going)
        (record {
          progress = h.progress;
          last = last_item-append (turn t c).1 (run ts (turn t c).2).1 (item_ok Event.close) h.last;
          deaf = h.deaf;
        })

  closes :
      (socket : Socket) (rest : List InternalMessage) (c : Client H T)
      → c.outbound ≡ InternalMessage.close ∷ rest
      → IsClosed (run (message_out socket ∷ []) c)
  unfolding run turn message_out_turn closed last_item
  closes socket rest c queue = rw queue (elim (Option-cases socket.closing) [
    | inl p ↦ rw (p, closed) (record { progress = refl; last = refl; deaf = refl })
    | inr (e, p) ↦ rw (p, closed) (record { progress = refl; last = refl; deaf = refl })
  ])

  takes :
      (faithful : IsFaithful bin) (socket : Socket) (r : RequestMessage)
      (rest : List InternalMessage) (c : Client H T)
      → IsRequest r
      → c.outbound ≡ InternalMessage.request r ∷ rest
      → IsTaken rest (turn (message_out socket) c)
  unfolding turn message_out_turn
  takes faithful socket r rest c valid queue =
      rw queue (sends_on faithful socket r (record c { outbound = rest }) valid)

  module _ (faithful : IsFaithful bin) where
    -- Over primitives that keep the laws of `IsFaithful`: a loop whose queue holds valid requests and
    -- then `Close` ends in as many turns of taking from the queue as the queue holds up to there,
    -- whether or not compressing, sending, flushing and closing fail in any of them; the last item
    -- that it yields is `Event::Close`, and nothing can be sent to it from then on.
    pub run-IsClosed :
        (requests : List RequestMessage) (rest : List InternalMessage) (last : Socket)
        (sockets : List Socket) (c : Client H T)
        → All IsRequest requests
        → length sockets ≡ length requests
        → c.outbound ≡ map InternalMessage.request requests ++ InternalMessage.close ∷ rest
        → IsClosed (run (map message_out sockets ++ message_out last ∷ []) c)
    run-IsClosed [] rest last [] c valid same queue = closes last rest c queue
    run-IsClosed [] rest last (socket ∷ sockets) c valid same queue = absurd (omega arith)
    run-IsClosed (r ∷ requests) rest last [] c valid same queue = absurd (omega arith)
    run-IsClosed (r ∷ requests) rest last (socket ∷ sockets) c valid same queue =
        let taken = takes faithful socket r _ c valid.0 queue in
        goes_on (message_out socket) (map message_out sockets ++ message_out last ∷ []) c
          taken.progress
          (run-IsClosed requests rest last sockets (turn (message_out socket) c).2 valid.1
            (omega arith) taken.queue)
