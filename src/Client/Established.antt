-- ===== src/Client/Established.antt =====
-- When a client loses a peer: the handlers of client/src/event_loop.rs, taken together.
use mpc_sdk_framework.Prelude.{
  ℕ, ◌≡◌, refl, Bool, true, false, not, Option, none, some, get, remove, get-remove, nat_eq,
  list_eq, ◌==◌, beq→eq, beq_refl, ◌⊎◌, Bool-cases, inl, inr,
}
use mpc_sdk_framework.Messages.{
  Bytes, ResponseMessage, noop, initiator, responder, server_handshake, peer_handshake,
  server_message, peer_message, error, transparent, opaque,
}
use mpc_sdk_framework.Wire.{BinaryStream}
use mpc_sdk_framework.Channel.Noise.{
  TransportState, HandshakeState, ProtocolState, handshake, transport,
}
use mpc_sdk_framework.Server.Send.{is_transport}
use mpc_sdk_framework.Actions.{
  failed, act_then, ◌>>=◌, ◌>>◌, read_state, fail, Stays, fail-Stays, crash-Stays,
}
use mpc_sdk_framework.Client.State.{not_handshake_state, Client, set_peers}
use mpc_sdk_framework.Client.Options.{Builder, Codecs}
use mpc_sdk_framework.Client.Incoming.{handle_incoming_message, peer_handshake_ack, as_event}
use mpc_sdk_framework.Client.Stays.{as_event-Stays}
use mpc_sdk_framework.Client.Kept.{
  is_established, Established, responder-Stays, ack-Stays, server_done-Stays, relayed-Stays,
  server_message-Stays,
}

module _ {H T : Type 0} where
  in_transport_mode :
      (o : Option (ProtocolState H T)) → is_transport o ≡ true → (t : T) × (o ≡ some (transport t))
  unfolding is_transport
  in_transport_mode none e = cc e
  in_transport_mode (some (transport t)) e = (t, refl)
  in_transport_mode (some (handshake h)) e = cc e

module _ {H T : Type 0} ⦃handshakes : HandshakeState H T⦄ where
  -- An answer from the peer itself.
  ack_drops :
      (k key : Bytes) (len : ℕ) (buf : Bytes) (c : Client H T)
      → (key == k) ≡ true
      → Established k c
      → as_event (peer_handshake_ack key len buf) c
        ≡ (failed not_handshake_state, record c { peers = remove key c.peers })
  unfolding as_event peer_handshake_ack ◌>>=◌ ◌>>◌ act_then read_state set_peers fail is_established
  ack_drops k key len buf c same p =
      let (t, known) = in_transport_mode (get k c.peers) p in
      let known' : get key c.peers ≡ some (transport t) = rw (beq→eq key k same) known in
      rw (known', act_then) refl

-- Whether a response is a peer's answer to a handshake.
unfoldable pub is_answer_from : Bytes → ResponseMessage → Bool
is_answer_from k (transparent (peer_handshake key (responder len buf))) = key == k
is_answer_from k message = false

module _ {H T : Type 0} ⦃bin : BinaryStream⦄ ⦃noise : TransportState T⦄
    ⦃handshakes : HandshakeState H T⦄ ⦃builder : Builder H⦄ ⦃codecs : Codecs⦄ where
  handled-Stays :
      (k : Bytes) (m : ResponseMessage)
      → is_answer_from k m ≡ false
      → Stays (Established {H = H} {T = T} k) (handle_incoming_message m)
  unfolding handle_incoming_message is_answer_from
  handled-Stays k noop e = crash-Stays
  handled-Stays k (transparent noop) e = crash-Stays
  handled-Stays k (transparent (error code message)) e = fail-Stays _
  handled-Stays k (transparent (server_handshake noop)) e = crash-Stays
  handled-Stays k (transparent (server_handshake (initiator len buf))) e = crash-Stays
  handled-Stays k (transparent (server_handshake (responder len buf))) e =
      as_event-Stays (server_done-Stays k len buf)
  handled-Stays k (transparent (peer_handshake key noop)) e = crash-Stays
  handled-Stays k (transparent (peer_handshake key (initiator len buf))) e =
      responder-Stays k key len buf
  handled-Stays k (transparent (peer_handshake key (responder len buf))) e =
      as_event-Stays (ack-Stays k key len buf e)
  handled-Stays k (opaque noop) e = crash-Stays
  handled-Stays k (opaque (server_message envelope)) e = server_message-Stays k envelope
  handled-Stays k (opaque (peer_message key session_id envelope)) e =
      as_event-Stays (relayed-Stays k key envelope session_id)

  answered :
      (k : Bytes) (m : ResponseMessage) (c : Client H T)
      → is_answer_from k m ≡ true
      → Established k c
      → handle_incoming_message m c
        ≡ (failed not_handshake_state, record c { peers = remove k c.peers })
  unfolding is_answer_from handle_incoming_message
  answered k noop c e p = cc e
  answered k (transparent noop) c e p = cc e
  answered k (transparent (error code message)) c e p = cc e
  answered k (transparent (server_handshake message)) c e p = cc e
  answered k (transparent (peer_handshake key noop)) c e p = cc e
  answered k (transparent (peer_handshake key (initiator len buf))) c e p = cc e
  answered k (transparent (peer_handshake key (responder len buf))) c e p =
      rw (← beq→eq key k e) (ack_drops key key len buf c (beq_refl key) (rw (beq→eq key k e) p))
  answered k (opaque message) c e p = cc e

  forgotten :
      (k : Bytes) (c : Client H T)
      → is_established k (record c { peers = remove k c.peers }) ≡ false
  unfolding is_established is_transport
  forgotten k c = rw (get-remove k k c.peers, beq_refl k) refl

  -- Handling a response ends the channel to a peer in transport mode exactly if the response is an
  -- answer to a handshake from that very peer; no other response does, whatever it holds, and
  -- however its handling ends. Such an answer is refused as an error, and the peer forgotten.
  pub is_established_iff :
      (k : Bytes) (m : ResponseMessage) (c : Client H T)
      → is_established k c ≡ true
      → (is_established k (handle_incoming_message m c).1 ≡ not (is_answer_from k m))
        × ((is_answer_from k m ≡ false)
            ⊎ (handle_incoming_message m c
                ≡ (failed not_handshake_state, record c { peers = remove k c.peers })))
  unfolding is_answer_from
  is_established_iff k m c p = elim (Bool-cases (is_answer_from k m)) [
    | inl answer ↦
        let refused = answered k m c answer p in (rw (refused, answer) (forgotten k c), inr refused)
    | inr other ↦ (rw other ((handled-Stays k m other).apply c p), inl other)
  ]
