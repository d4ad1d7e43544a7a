-- ===== src/Client/Stays.antt =====
-- The calls of client/src/event_loop.rs that leave the channels of a client as they are.
use mpc_sdk_framework.Prelude.{
  ℕ, ◌≡◌, refl, Bool, true, false, Option, none, nat_eq, list_eq, length, ltb, if◌then◌else◌,
}
use mpc_sdk_framework.Messages.{Bytes, SessionId, Encoding, ServerMessage, noop, blob, json, error}
use mpc_sdk_framework.Wire.{BinaryStream, Result, ok, err, panic}
use mpc_sdk_framework.Encoding.Decode.{decode, decode_server}
use mpc_sdk_framework.Channel.Noise.{HandshakeState}
use mpc_sdk_framework.Actions.{
  Outcome, Stays, bind-Stays, pure-Stays, fail-Stays, crash-Stays, some_or-Stays, if-Stays,
}
use mpc_sdk_framework.Client.State.{
  Act, Client, Event, InternalMessage, Error, channel_size, send, lift, lift_io, lift_peer,
}
use mpc_sdk_framework.Client.Calls.{handshake_payload}
use mpc_sdk_framework.Client.Incoming.{
  server_contents, handle_server_channel_message, read_handshake, finish_handshake, as_event,
  relayed_event,
}

-- A predicate that a client's server channel and peers decide.
pub record IsOfChannels {H T : Type 0} (P : Client H T → Type 0) : Type 0 where
  pub stays : (c d : Client H T) → d.server ≡ c.server → d.peers ≡ c.peers → P c → P d

module _ {H T : Type 0} {P : Client H T → Type 0} (h : IsOfChannels P) where
  pub send-Stays : (message : InternalMessage) → Stays P (send message)
  unfolding send
  send-Stays message = record {
    apply = λ c p.
        if_stays c.listening _ _
          (if_stays (ltb (length c.outbound) channel_size) _ _ (h.stays c _ refl refl p) p) p;
  }
    where
      if_stays :
          (b : Bool) (x y : Outcome Error Unit × Client H T)
          → P x.1
          → P y.1
          → P (if b then x else y).1
      if_stays true x y p q = p
      if_stays false x y p q = q

module _ {H T : Type 0} {P : Client H T → Type 0} where
  pub lift-Stays : {A : Type 0} (r : Result A) → Stays P (lift r)
  unfolding lift
  lift-Stays (ok a) = record { apply = λ c p. p }
  lift-Stays (err e) = record { apply = λ c p. p }
  lift-Stays panic = record { apply = λ c p. p }

  pub lift_io-Stays : {A : Type 0} (r : Result A) → Stays P (lift_io r)
  unfolding lift_io
  lift_io-Stays (ok a) = record { apply = λ c p. p }
  lift_io-Stays (err e) = record { apply = λ c p. p }
  lift_io-Stays panic = record { apply = λ c p. p }

  pub lift_peer-Stays : {A : Type 0} (r : Result A) → Stays P (lift_peer r)
  unfolding lift_peer
  lift_peer-Stays (ok a) = record { apply = λ c p. p }
  lift_peer-Stays (err e) = record { apply = λ c p. p }
  lift_peer-Stays panic = record { apply = λ c p. p }

  pub handshake_payload-Stays : (message : Option Bytes) → Stays P (handshake_payload message)
  unfolding handshake_payload
  handshake_payload-Stays message = bind-Stays (some_or-Stays message _) (λ bytes. pure-Stays _)

  pub channel_message-Stays : (m : ServerMessage) → Stays P (handle_server_channel_message m)
  unfolding handle_server_channel_message
  channel_message-Stays (error code message) = fail-Stays _
  channel_message-Stays noop = pure-Stays none
  channel_message-Stays (ServerMessage.new_meeting owner slots) = pure-Stays none
  channel_message-Stays (ServerMessage.meeting_created s) = pure-Stays _
  channel_message-Stays (ServerMessage.join_meeting meeting user) = pure-Stays none
  channel_message-Stays (ServerMessage.meeting_ready s) = pure-Stays _
  channel_message-Stays (ServerMessage.new_session keys) = pure-Stays none
  channel_message-Stays (ServerMessage.session_connection session key) = pure-Stays none
  channel_message-Stays (ServerMessage.session_created s) = pure-Stays _
  channel_message-Stays (ServerMessage.session_ready s) = pure-Stays _
  channel_message-Stays (ServerMessage.session_active s) = pure-Stays _
  channel_message-Stays (ServerMessage.session_timeout session) = pure-Stays _
  channel_message-Stays (ServerMessage.close_session session) = pure-Stays none
  channel_message-Stays (ServerMessage.session_finished session) = pure-Stays _

  pub relayed_event-Stays :
      (key : Bytes) (session_id : Option SessionId) (encoding : Encoding) (contents : Bytes)
      → Stays P (relayed_event key session_id encoding contents)
  unfolding relayed_event
  relayed_event-Stays key session_id noop contents = crash-Stays
  relayed_event-Stays key session_id blob contents = pure-Stays _
  relayed_event-Stays key session_id json contents = pure-Stays _

  pub as_event-Stays : {m : Act H T Event} → Stays P m → Stays P (as_event m)
  unfolding as_event
  as_event-Stays h = bind-Stays h (λ event. pure-Stays _)

module _ {H T : Type 0} {P : Client H T → Type 0} ⦃bin : BinaryStream⦄ where
  pub server_contents-Stays :
      (encoding : Encoding) (contents : Bytes) → Stays P (server_contents encoding contents)
  unfolding server_contents
  server_contents-Stays noop contents = crash-Stays
  server_contents-Stays blob contents =
      bind-Stays (lift_io-Stays (decode decode_server contents)) channel_message-Stays
  server_contents-Stays json contents = crash-Stays

module _ {H T : Type 0} {P : Client H T → Type 0} ⦃handshakes : HandshakeState H T⦄ where
  pub read_handshake-Stays : (x : H) (len : ℕ) (buf : Bytes) → Stays P (read_handshake x len buf)
  unfolding read_handshake
  read_handshake-Stays x len buf =
      if-Stays (ltb (length buf) len) crash-Stays
        (bind-Stays (some_or-Stays _ _) (λ bytes. pure-Stays _))

  pub finish_handshake-Stays :
      (x : H) (len : ℕ) (buf : Bytes) → Stays P (finish_handshake x len buf)
  unfolding finish_handshake
  finish_handshake-Stays x len buf =
      bind-Stays (read_handshake-Stays x len buf) (λ x'. some_or-Stays _ _)
