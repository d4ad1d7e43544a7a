-- ===== src/Driver/Bridge.antt =====
-- `Bridge` of driver/src/bridge.rs, between the client and a protocol driver.
use mpc_sdk_framework.Prelude.{
  ℕ, List, [], ◌∷◌, Option, none, some, nat_eq, list_eq, ◌==◌, if◌then◌else◌,
}
use mpc_sdk_framework.Messages.{SessionId, SessionState}
use mpc_sdk_framework.Channel.Noise.{TransportState}
use mpc_sdk_framework.Sessions.{recipients, peer_key}
use mpc_sdk_framework.Rounds.{RoundBuffer, add_message, is_ready, take_round, len}
use mpc_sdk_framework.Actions.{
  Outcome, done, failed, panicked, waiting, Action, ◌>>=◌, ◌>>◌, act_then, pure, fail, some_or,
  unwrap, read_state, write_state,
}
use mpc_sdk_framework.Client.State
use mpc_sdk_framework.Client.State.{Client, Act, Event, json_message, JsonMessage}
use mpc_sdk_framework.Client.Calls.{public_key, broadcast_json, send_json}
use mpc_sdk_framework.Driver.State.{
  Error, session_id_mismatch, session_id_required, client, Msg, RoundMsg, is_broadcast, to_msg,
  Serde, ProtocolDriver,
}

pub record Bridge (H T D B : Type 0) : Type 0 where
  pub transport : Client H T
  pub buffer : RoundBuffer (Msg B)
  pub driver : Option D
  pub session : SessionState

-- `?` on a call of the client.
unfoldable pub client_outcome : {A : Type 0} → Outcome State.Error A → Outcome Error A
client_outcome (done a) = done a
client_outcome (failed e) = failed (client e)
client_outcome panicked = panicked
client_outcome waiting = waiting

abbrev pub Drive : Type 0 → Type 0 → Type 0 → Type 0 → Type 0 → Type 0
Drive H T D B A = Action (Bridge H T D B) Error A

module _ {H T D B A : Type 0} where
  unfoldable pub on_transport : Act H T A → Drive H T D B A
  unfolding client_outcome
  on_transport m b = let (r, c) = m b.transport in (client_outcome r, record b { transport = c })

  -- A call on the driver, which `unwrap` finds there.
  unfoldable pub on_driver : Action D Error A → Drive H T D B A
  on_driver m b = elim b.driver [
    | none ↦ (panicked, b)
    | some d ↦ let (r, d') = m d in (r, record b { driver = some d' })
  ]

  -- `self.driver.take().unwrap()`, and a call that consumes the driver.
  unfoldable pub with_taken : (D → Outcome Error A) → Drive H T D B A
  with_taken f b = elim b.driver [
    | none ↦ (panicked, b)
    | some d ↦ (f d, record b { driver = none })
  ]

module _ {H T D B : Type 0} ⦃noise : TransportState T⦄ ⦃serde : Serde B⦄ where
  -- To each receiver, which is a party of the session.
  unfoldable pub send_each : List (RoundMsg B) → Drive H T D B Unit
  unfolding ◌>>=◌ ◌>>◌ act_then pure read_state unwrap on_transport send_json peer_key
  send_each [] = pure tt
  send_each (message ∷ messages) = do
    party_number ← unwrap message.receiver
    b ← read_state
    key ← unwrap (peer_key b.session party_number)
    on_transport (send_json key (serde.to_vec message) (some b.session.session_id))
    send_each messages

  unfoldable pub send_broadcast : RoundMsg B → Drive H T D B Unit
  unfolding ◌>>=◌ act_then read_state on_transport broadcast_json recipients public_key
  send_broadcast message = do
    b ← read_state
    on_transport (
        broadcast_json b.session.session_id (recipients b.session (public_key b.transport))
          (serde.to_vec message))

  -- One message without a receiver is a broadcast.
  unfoldable pub dispatch_round_messages : List (RoundMsg B) → Drive H T D B Unit
  unfolding is_broadcast send_broadcast send_each
  dispatch_round_messages (message ∷ []) =
      if is_broadcast message then send_broadcast message else send_each (message ∷ [])
  dispatch_round_messages messages = send_each messages

module _ {H T D B Output : Type 0} (protocol : ProtocolDriver D B Output) where
  unfoldable pub handle_each : List (Msg B) → Drive H T D B Unit
  unfolding ◌>>◌ pure on_driver
  handle_each [] = pure tt
  handle_each (message ∷ messages) = do
    on_driver (protocol.handle_incoming message)
    handle_each messages

  unfoldable pub finish : Drive H T D B (Option Output)
  unfolding ◌>>=◌ pure with_taken
  finish = do result ← with_taken protocol.finish; pure (some result)

module _ {H T D B Output : Type 0} ⦃noise : TransportState T⦄ ⦃serde : Serde B⦄
    (protocol : ProtocolDriver D B Output) where
  -- Start running the protocol, and go on to the next round.
  unfoldable pub execute : Drive H T D B Unit
  unfolding ◌>>=◌ on_driver dispatch_round_messages
  execute = do messages ← on_driver protocol.proceed; dispatch_round_messages messages

  -- A round that is ready.
  unfoldable pub complete_round : ℕ → Drive H T D B (Option Output)
  unfolding ◌>>=◌ ◌>>◌ act_then read_state write_state take_round handle_each len finish execute
      pure
  complete_round round_number = do
    b ← read_state
    let (messages, buffer) = take_round round_number b.buffer
    write_state (record b { buffer = buffer })
    handle_each protocol messages
    if len buffer == 1
        then finish protocol
        else (do execute; if round_number == len buffer then finish protocol else pure none)

  unfoldable pub handle_round : RoundMsg B → Drive H T D B (Option Output)
  unfolding ◌>>=◌ ◌>>◌ act_then read_state write_state add_message to_msg is_ready complete_round
      pure
  handle_round message = do
    b ← read_state
    let buffer = add_message message.round (to_msg message) b.buffer
    write_state (record b { buffer = buffer })
    if is_ready message.round buffer then complete_round message.round else pure none

  unfoldable pub handle_json : Option SessionId → JsonMessage → Drive H T D B (Option Output)
  unfolding ◌>>=◌ act_then read_state fail some_or handle_round
  handle_json none message = fail session_id_required
  handle_json (some session_id) message = do
    b ← read_state
    if session_id == b.session.session_id
        then (do
          round_message ← some_or (serde.from_slice message.contents) (client State.json)
          handle_round round_message)
        else fail session_id_mismatch

  unfoldable pub handle_event : Event → Drive H T D B (Option Output)
  unfolding handle_json pure
  handle_event (json_message key message session_id) = handle_json session_id message
  handle_event event = pure none
