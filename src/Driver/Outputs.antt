-- ===== src/Driver/Outputs.antt =====
-- What holds of the output of a driver behind `Bridge` of driver/src/bridge.rs, when it holds of what
-- the driver makes of a state in which a property holds that its calls keep.
use mpc_sdk_framework.Prelude.{
  ℕ, ◌≡◌, Bool, true, false, List, [], ◌∷◌, Option, none, some, nat_eq, list_eq, ◌==◌,
  if◌then◌else◌,
}
use mpc_sdk_framework.Messages.{SessionId}
use mpc_sdk_framework.Channel.Noise.{TransportState}
use mpc_sdk_framework.Rounds.{add_message, is_ready, take_round, len}
use mpc_sdk_framework.Actions.{
  done, act_then, ◌>>=◌, ◌>>◌, pure, fail, some_or, read_state, write_state, Stays, bind-Stays,
  then-Stays, pure-Stays,
}
use mpc_sdk_framework.Client
use mpc_sdk_framework.Client.State.{
  Client, Act, Event, JsonMessage, json_message, server_connected, peer_connected, binary_message,
  meeting_created, meeting_ready, session_created, session_ready, session_active, session_timeout,
  session_finished, close,
}
use mpc_sdk_framework.Client.Turns.{Item, ok, err}
use mpc_sdk_framework.Driver.State
use mpc_sdk_framework.Driver.State.{
  Error, Msg, RoundMsg, to_msg, is_broadcast, ProtocolDriver, Serde,
}
use mpc_sdk_framework.Driver.Bridge.{
  Bridge, Drive, with_taken, handle_each, finish, execute, complete_round, handle_round,
  handle_json, handle_event,
}
use mpc_sdk_framework.Driver.Waiting.{Stream, wait_for, wait_item, wait_for_driver, set_bridge}
use mpc_sdk_framework.Driver.Holding.{
  Gives, then-Gives, Gives-twice, IfSome, Holds, on_driver-Stays, with_taken-Gives, dispatch-Stays,
}

-- A driver whose calls keep a property of its state, from which another follows for its output.
pub record IsSound {D B Output : Type 0} (protocol : ProtocolDriver D B Output) (R : D → Type 0)
    (Q : Output → Type 0) : Type 0 where
  pub incoming : (m : Msg B) (d : D) → R d → R (protocol.handle_incoming m d).1
  pub proceeds : (d : D) → R d → R (protocol.proceed d).1
  pub finishes : (d : D) (o : Output) → R d → protocol.finish d ≡ done o → Q o

module _ {H T D B Output : Type 0} {R : D → Type 0} {Q : Output → Type 0} ⦃noise : TransportState T⦄
    ⦃serde : Serde B⦄ {protocol : ProtocolDriver D B Output} (sound : IsSound protocol R Q) where
  handle_each-Stays :
      (messages : List (Msg B)) → Stays (Holds {H = H} {T = T} R) (handle_each protocol messages)
  unfolding handle_each
  handle_each-Stays [] = pure-Stays tt
  handle_each-Stays (m ∷ messages) =
      then-Stays (on_driver-Stays R (protocol.handle_incoming m) (sound.incoming m))
        (handle_each-Stays messages)

  execute-Stays : Stays (Holds {H = H} {T = T} R) (execute protocol)
  unfolding execute
  execute-Stays =
      bind-Stays (on_driver-Stays R protocol.proceed sound.proceeds)
        λ messages. dispatch-Stays R messages

  finish-Gives : (b : Bridge H T D B) → Holds R b → Gives (Holds R) (IfSome Q) (finish protocol b)
  unfolding finish ◌>>=◌ pure
  finish-Gives b p =
      Gives-twice (with_taken protocol.finish b) _
        (with_taken-Gives R protocol.finish sound.finishes b p)
        λ o s q p. record { left = p; given = λ a e. let same : some o ≡ a = cc e in rw (← same) q }

  none-Gives : (b : Bridge H T D B) → Holds R b → Gives (Holds R) (IfSome Q) (done none, b)
  none-Gives b p = record {
    left = p;
    given = λ a e. let same : ◌≡◌ {A = Option Output} none a = cc e in rw (← same) tt;
  }

  complete_round-Gives :
      (n : ℕ) (b : Bridge H T D B)
      → Holds R b
      → Gives (Holds R) (IfSome Q) (complete_round protocol n b)
  unfolding complete_round ◌>>=◌ ◌>>◌ act_then read_state write_state pure
  complete_round-Gives n b p =
      let buffer = (take_round n b.buffer).1 in
      let b1 : Bridge H T D B = record b { buffer = buffer } in
      then-Gives (handle_each protocol (take_round n b.buffer).0 b1) _
        ((handle_each-Stays (take_round n b.buffer).0).apply b1 p)
        λ u s p. ends s p (len buffer == 1) (n == len buffer)
    where
      ends :
          (s : Bridge H T D B)
          → Holds R s
          → (single last : Bool)
          → Gives (Holds R) (IfSome Q) (
              (if single
                  then finish protocol
                  else (do execute protocol; if last then finish protocol else pure none))
                s)
      ends s p true last = finish-Gives s p
      ends s p false true =
          then-Gives (execute protocol s) _ (execute-Stays.apply s p) λ u s p. finish-Gives s p
      ends s p false false =
          then-Gives (execute protocol s) _ (execute-Stays.apply s p) λ u s p. none-Gives s p

  handle_round-Gives :
      (m : RoundMsg B) (b : Bridge H T D B)
      → Holds R b
      → Gives (Holds R) (IfSome Q) (handle_round protocol m b)
  unfolding handle_round ◌>>=◌ ◌>>◌ act_then read_state write_state pure
  handle_round-Gives m b p =
      let buffer = add_message m.round (to_msg m) b.buffer in
      ready (record b { buffer = buffer }) p (is_ready m.round buffer)
    where
      ready :
          (s : Bridge H T D B)
          → Holds R s
          → (r : Bool)
          → Gives
              (Holds R)
              (IfSome Q)
              ((if r then complete_round protocol m.round else pure none) s)
      ready s p true = complete_round-Gives m.round s p
      ready s p false = none-Gives s p

  handle_json-Gives :
      (id : Option SessionId) (m : JsonMessage) (b : Bridge H T D B)
      → Holds R b
      → Gives (Holds R) (IfSome Q) (handle_json protocol id m b)
  unfolding handle_json ◌>>=◌ act_then read_state fail some_or
  handle_json-Gives none m b p = record { left = p; given = λ a e. cc e }
  handle_json-Gives (some id) m b p =
      same (id == b.session.session_id) (serde.from_slice m.contents)
    where
      same :
          (test : Bool) (o : Option (RoundMsg B))
          → Gives (Holds R) (IfSome Q) (
              (if test
                  then (do
                    round_message ← some_or o (State.client Client.State.json)
                    handle_round protocol round_message)
                  else fail State.session_id_mismatch)
                b)
      same true none = record { left = p; given = λ a e. cc e }
      same true (some x) = handle_round-Gives x b p
      same false o = record { left = p; given = λ a e. cc e }

  handle_event-Gives :
      (event : Event) (b : Bridge H T D B)
      → Holds R b
      → Gives (Holds R) (IfSome Q) (handle_event protocol event b)
  unfolding handle_event pure
  handle_event-Gives (json_message key m id) b p = handle_json-Gives id m b p
  handle_event-Gives (server_connected key) b p = none-Gives b p
  handle_event-Gives (peer_connected key) b p = none-Gives b p
  handle_event-Gives (binary_message key m id) b p = none-Gives b p
  handle_event-Gives (meeting_created s) b p = none-Gives b p
  handle_event-Gives (meeting_ready s) b p = none-Gives b p
  handle_event-Gives (session_created s) b p = none-Gives b p
  handle_event-Gives (session_ready s) b p = none-Gives b p
  handle_event-Gives (session_active s) b p = none-Gives b p
  handle_event-Gives (session_timeout id) b p = none-Gives b p
  handle_event-Gives (session_finished id) b p = none-Gives b p
  handle_event-Gives close b p = none-Gives b p

  -- The end of a wait after one event.
  next-Gives :
      (o : Option Output) (rest : Drive H T D B (Option Output)) (b : Bridge H T D B)
      → IfSome Q o
      → Holds R b
      → ((b : Bridge H T D B) → Holds R b → Gives (Holds R) (IfSome Q) (rest b))
      → Gives (Holds R) (IfSome Q) (
          (elim o as (λ x. Drive H T D B (Option Output)) [ none ↦ rest | some a ↦ pure (some a) ])
            b)
  unfolding pure
  next-Gives none rest b q p h = h b p
  next-Gives (some a) rest b q p h = record {
    left = p;
    given = λ a2 e. let same : some a ≡ a2 = cc e in rw (← same) q;
  }

  item-Gives :
      (item : Item) (rest : Drive H T D B (Option Output)) (b : Bridge H T D B)
      → Holds R b
      → ((b : Bridge H T D B) → Holds R b → Gives (Holds R) (IfSome Q) (rest b))
      → Gives (Holds R) (IfSome Q) (wait_item (handle_event protocol) rest item b)
  unfolding wait_item ◌>>=◌ fail
  item-Gives (err e) rest b p h = record { left = p; given = λ a e. cc e }
  item-Gives (ok event) rest b p h =
      Gives-twice (handle_event protocol event b) _ (handle_event-Gives event b p)
        λ o s q p. next-Gives o rest s q p h

  wait_for-Gives :
      (stream : Stream H T) (b : Bridge H T D B)
      → Holds R b
      → Gives (Holds R) (IfSome Q) (wait_for set_bridge (handle_event protocol) stream b)
  unfolding wait_for set_bridge
  wait_for-Gives [] b p = none-Gives b p
  wait_for-Gives (y ∷ ys) b p =
      item-Gives y.item (wait_for set_bridge (handle_event protocol) ys) (set_bridge y.left b) p
        (wait_for-Gives ys)

  -- The output of a driver that a bridge holds in a state with the property.
  pub wait_for_driver-Gives :
      (stream : Stream H T) (b : Bridge H T D B)
      → Holds R b
      → Gives (Holds R) (IfSome Q) (wait_for_driver protocol stream b)
  unfolding wait_for_driver ◌>>◌ ◌>>=◌
  wait_for_driver-Gives stream b p =
      then-Gives (execute protocol b) _ (execute-Stays.apply b p) λ u s p. wait_for-Gives stream s p
