-- ===== src/Client/Filling.antt =====
-- What becomes of the responses that the loop `run` of client/src/event_loop.rs reads before it
-- handles any: `read_message` of client/src/native.rs puts them into the channel that the same loop
-- empties.
use mpc_sdk_framework.Prelude.{
  arith, ◌+◌, ◌≤◌, ◌≡◌, refl, ap, ◌∙◌, true, false, List, [], ◌∷◌, ◌++◌, append_assoc, append-nil,
  map, some, length, length-append, take, take_first, ltb, Bool-cases, inl, inr, All, if◌then◌else◌,
}
use mpc_sdk_framework.Messages.{Bytes, ResponseMessage}
use mpc_sdk_framework.Wire.{BinaryStream, ok}
use mpc_sdk_framework.Encoding.Decode.{decode, decode_response}
use mpc_sdk_framework.Channel.Noise.{TransportState, HandshakeState}
use mpc_sdk_framework.Actions.{act_then, ◌>>=◌}
use mpc_sdk_framework.Client.State.{Client, lift, lift_io}
use mpc_sdk_framework.Client.Options.{Builder, Codecs}
use mpc_sdk_framework.Client.Turns.{
  Turn, message_in, binary, running, stuck, turn, run, read_message, send_inbound, report,
}

-- A buffer of the socket, and what it inflates and decodes to.
pub record Received : Type 0 where
  pub buffer : Bytes
  pub inflated : Bytes
  pub response : ResponseMessage

pub record IsReceived ⦃bin : BinaryStream⦄ ⦃codecs : Codecs⦄ (r : Received) : Type 0 where
  pub inflates : codecs.inflate r.buffer ≡ some r.inflated
  pub decodes : decode decode_response r.inflated ≡ ok r.response

unfoldable pub received_turn : Received → Turn
received_turn r = message_in (binary r.buffer)

module _ {H T : Type 0} ⦃bin : BinaryStream⦄ ⦃noise : TransportState T⦄
    ⦃handshakes : HandshakeState H T⦄ ⦃builder : Builder H⦄ ⦃codecs : Codecs⦄ where
  turn_queues :
      (r : Received) (c : Client H T)
      → IsReceived r
      → ltb (length c.inbound) 32 ≡ true
      → turn (received_turn r) c
        ≡ (running, [], record c { inbound = c.inbound ++ r.response ∷ [] })
  unfolding turn received_turn report read_message ◌>>=◌ act_then lift lift_io send_inbound
  turn_queues r c h room =
      rw (h.inflates, act_then, lift, h.decodes, act_then, lift_io, room, report) refl

  turn_waits :
      (r : Received) (c : Client H T)
      → IsReceived r
      → ltb (length c.inbound) 32 ≡ false
      → turn (received_turn r) c ≡ (stuck, [], c)
  unfolding turn received_turn report read_message ◌>>=◌ act_then lift lift_io send_inbound
  turn_waits r c h full =
      rw (h.inflates, act_then, lift, h.decodes, act_then, lift_io, full, report) refl

  run_goes :
      (t : Turn) (ts : List Turn) (c c' : Client H T)
      → turn t c ≡ (running, [], c')
      → run (t ∷ ts) c ≡ run ts c'
  unfolding run
  run_goes t ts c c' e = rw (run, ap (λ r. r.0) e, ap (λ r. r.1) e, ap (λ r. r.2) e) refl

  run_stops :
      (t : Turn) (ts : List Turn) (c c' : Client H T)
      → turn t c ≡ (stuck, [], c')
      → run (t ∷ ts) c ≡ (stuck, [], c')
  unfolding run
  run_stops t ts c c' e = rw (run, ap (λ r. r.0) e, ap (λ r. r.1) e, ap (λ r. r.2) e) refl

  -- A loop that reads buffers from the socket, each of which inflates and decodes to a response, before
  -- it takes any response from its channel, which holds at most 32: the responses go into the channel in
  -- their order; if the channel then holds no more than 32, the loop goes on with its further turns, and
  -- nothing else of the client has changed; otherwise it stops for good with the first 32 in the
  -- channel, so that none of its further turns is taken, also no turn that would empty the channel.
  pub run-received :
      (received : List Received) (more : List Turn) (c : Client H T)
      → All IsReceived received
      → length c.inbound ≤ 32
      → run (map received_turn received ++ more) c ≡ (
          if ltb 32 (length c.inbound + length received)
          then (
            stuck,
            [],
            record c { inbound = take 32 (c.inbound ++ map (λ r. r.response) received) },
          )
          else run more (record c { inbound = c.inbound ++ map (λ r. r.response) received }))
  run-received [] more c h held =
      let room : ltb 32 (length c.inbound + 0) ≡ false = ground arith in
      rw (room, append-nil c.inbound) refl
  run-received (r ∷ rs) more c h held = elim (Bool-cases (ltb (length c.inbound) 32)) [
    | inl room ↦
        let c1 : Client H T = record c { inbound = c.inbound ++ r.response ∷ [] } in
        let longer : length c1.inbound ≡ length c.inbound + 1 =
          length-append c.inbound (r.response ∷ []) in
        let rest = run-received rs more c1 h.1 (ground (arith, longer)) in
        let count : length c.inbound + 1 + length rs ≡ length c.inbound + length (r ∷ rs) =
          omega arith in
        run_goes (received_turn r) _ c c1 (turn_queues r c h.0 room)
        ∙ rest
        ∙ rw (longer, count, append_assoc c.inbound (r.response ∷ []) (map (λ r. r.response) rs))
            refl
    | inr full ↦
        let over : ltb 32 (length c.inbound + length (r ∷ rs)) ≡ true = ground arith in
        let first : take 32 (c.inbound ++ map (λ r. r.response) (r ∷ rs)) ≡ c.inbound =
          take_first 32 c.inbound _ (ground arith) in
        run_stops (received_turn r) _ c c (turn_waits r c h.0 full) ∙ rw (over, first) refl
  ]
