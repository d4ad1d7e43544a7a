-- ===== src/Client/Kept.antt =====
-- The peers that the handlers of client/src/event_loop.rs keep.
use mpc_sdk_framework.Prelude.{
  ℕ, ◌≡◌, refl, Bool, true, false, [], Option, none, some, Map, get, insert, remove, get-insert,
  get-remove, nat_eq, list_eq, ◌==◌, beq→eq, Bool-cases, inl, inr, ◌⊎◌,
}
use mpc_sdk_framework.Messages.{
  Bytes, SessionId, SealedEnvelope, responder, peer_handshake, transparent,
}
use mpc_sdk_framework.Wire.{BinaryStream, Result}
use mpc_sdk_framework.Channel.Noise.{
  TransportState, HandshakeState, ProtocolState, handshake, transport,
}
use mpc_sdk_framework.Channel.Chunks
use mpc_sdk_framework.Channel.Envelopes.{decrypt_server_channel, decrypt_peer_channel}
use mpc_sdk_framework.Server.Send.{is_transport}
use mpc_sdk_framework.Server.Wiring.Handlers.{in_transport_stays}
use mpc_sdk_framework.Actions.{
  act_then, ◌>>=◌, ◌>>◌, read_state, pure, fail, crash, some_or, Stays, bind-Stays, then-Stays,
  pure-Stays, fail-Stays, some_or-Stays, found, after,
}
use mpc_sdk_framework.Client.State.{
  Act, not_handshake_state, server_connected, Client, Event, request, peer_connected, snow, send,
  set_peers, set_server, with_peer, with_server,
}
use mpc_sdk_framework.Client.Options.{Builder, Codecs, responder_for}
use mpc_sdk_framework.Client.Calls.{handshake_payload}
use mpc_sdk_framework.Client.Incoming.{
  handle_relayed_message, handle_server_message, server_handshake_done, peer_handshake_responder,
  peer_handshake_ack, read_handshake, finish_handshake, relayed_event,
}
use mpc_sdk_framework.Client.Stays.{
  IsOfChannels, send-Stays, lift-Stays, lift_peer-Stays, handshake_payload-Stays,
  relayed_event-Stays, server_contents-Stays, read_handshake-Stays, finish_handshake-Stays,
}

module _ {H T : Type 0} where
  -- A peer in transport mode.
  unfoldable pub is_established : Bytes → Client H T → Bool
  unfolding is_transport
  is_established key c = is_transport (get key c.peers)

-- The peers.
module _ {H T : Type 0} (k : Bytes) where
  abbrev pub Established : Client H T → Type 0
  Established c = is_established k c ≡ true

  of_peers : IsOfChannels Established
  unfolding is_established
  of_peers = record { stays = λ c d server peers p. rw peers p }

  -- Other peers, and a state in transport mode.
  inserted :
      (key : Bytes) (s : ProtocolState H T) (c : Client H T)
      → Established c
      → is_transport (some s) ≡ true
      → is_transport (get k (insert key s c.peers)) ≡ true
  unfolding is_established
  inserted key s c p t = elim (Bool-cases (key == k)) [
    | inl same ↦ rw (get-insert key k s c.peers, same) t
    | inr other ↦ rw (get-insert key k s c.peers, other) p
  ]

  set_peers-Stays :
      (peers : Map Bytes (ProtocolState H T))
      → is_transport (get k peers) ≡ true
      → Stays Established (set_peers peers)
  unfolding set_peers is_established
  set_peers-Stays peers t = record { apply = λ c p. t }

  set_server-Stays : (server : Option (ProtocolState H T)) → Stays Established (set_server server)
  unfolding set_server is_established
  set_server-Stays server = record { apply = λ c p. p }

module _ {H T : Type 0} ⦃handshakes : HandshakeState H T⦄ ⦃builder : Builder H⦄
    ⦃codecs : Codecs⦄ where
  answering :
      (k key : Bytes) (len : ℕ) (buf : Bytes) (c : Client H T)
      → Established k c
      → (h0 : H)
      → Stays (Established {H = H} {T = T} k) (do
        h1 ← read_handshake h0 len buf
        let (message, h2) = handshakes.write h1 [] 1024
        (reply_len, reply) ← handshake_payload message
        t ← some_or (handshakes.into_transport_mode h2) snow
        set_peers (insert key (transport t) c.peers)
        send (request (transparent (peer_handshake key (responder reply_len reply))))
        pure (some (peer_connected key)))
  unfolding is_transport
  answering k key len buf c p h0 = bind-Stays (read_handshake-Stays h0 len buf) λ h1.
      bind-Stays (handshake_payload-Stays _) λ reply. bind-Stays (some_or-Stays _ _) λ t.
        then-Stays (set_peers-Stays k _ (inserted k key (transport t) c p refl))
          (then-Stays (send-Stays (of_peers k) _) (pure-Stays _))

  pub responder-Stays :
      (k key : Bytes) (len : ℕ) (buf : Bytes)
      → Stays (Established {H = H} {T = T} k) (peer_handshake_responder key len buf)
  unfolding peer_handshake_responder ◌>>=◌ act_then read_state fail
  responder-Stays k key len buf = record {
    apply = λ c p.
        found (Established k) (get key c.peers) _ _ c
          (λ new.
            (bind-Stays (some_or-Stays (responder_for c.options key) _)
                (answering k key len buf c p)).apply
              c p)
          (λ peer known. p);
  }

module _ {H T : Type 0} ⦃handshakes : HandshakeState H T⦄ where
  -- An answer from another peer.
  pub ack-Stays :
      (k key : Bytes) (len : ℕ) (buf : Bytes)
      → (key == k) ≡ false
      → Stays (Established {H = H} {T = T} k) (peer_handshake_ack key len buf)
  unfolding peer_handshake_ack ◌>>=◌ act_then read_state fail is_established is_transport
  ack-Stays k key len buf other = record {
    apply = λ c p.
        found (Established k) (get key c.peers) _ _ c (λ unknown. p)
          (λ peer known.
            (then-Stays (set_peers-Stays k (remove key c.peers) (removed c p))
                (finished c p peer)).apply
              c p);
  }
    where
      removed :
          (c : Client H T) → Established k c → is_transport (get k (remove key c.peers)) ≡ true
      removed c p = rw (get-remove key k c.peers, other) p

      finished :
          (c : Client H T)
          → Established k c
          → (peer : ProtocolState H T)
          → Stays (Established k) (elim peer as (λ x. Act H T Event) [
            | transport t ↦ fail not_handshake_state
            | handshake h ↦ do
              t ← finish_handshake h len buf
              set_peers (insert key (transport t) (remove key c.peers))
              pure (peer_connected key)
          ])
      finished c p (transport t) = fail-Stays _
      finished c p (handshake h) = bind-Stays (finish_handshake-Stays h len buf) λ t.
          then-Stays
            (set_peers-Stays k _ (
              inserted k key (transport t) (record c { peers = remove key c.peers }) (removed c p)
                refl))
            (pure-Stays _)

  pub server_done-Stays :
      (k : Bytes) (len : ℕ) (buf : Bytes)
      → Stays (Established {H = H} {T = T} k) (server_handshake_done len buf)
  unfolding server_handshake_done ◌>>=◌ act_then read_state
  server_done-Stays k len buf = record {
    apply = λ c p. (then-Stays (set_server-Stays k none) (finished c c.server)).apply c p;
  }
    where
      finished :
          (c : Client H T) (state : Option (ProtocolState H T))
          → Stays (Established k) (elim state as (λ x. Act H T Event) [
            | some (handshake h) ↦ do
              t ← finish_handshake h len buf
              set_server (some (transport t))
              pure (server_connected c.options.server_public_key)
            | _ ↦ fail not_handshake_state
          ])
      finished c none = fail-Stays _
      finished c (some (transport t)) = fail-Stays _
      finished c (some (handshake h)) =
          bind-Stays (finish_handshake-Stays h len buf)
            λ t. then-Stays (set_server-Stays k (some (transport t))) (pure-Stays _)

module _ {H T : Type 0} ⦃noise : TransportState T⦄ where
  decrypt_peer_stays :
      (envelope : SealedEnvelope) (s : ProtocolState H T)
      → is_transport (some s) ≡ true
      → is_transport (some (decrypt_peer_channel s envelope).1) ≡ true
  unfolding decrypt_peer_channel
  decrypt_peer_stays envelope (transport t) h =
      in_transport_stays H _ (Chunks.join envelope.chunks t)
  decrypt_peer_stays envelope (handshake x) h = h

  with_peer-stays :
      {A : Type 0} (k key : Bytes) (peer : ProtocolState H T)
      (f : ProtocolState H T → Result A × ProtocolState H T) (c : Client H T)
      → get key c.peers ≡ some peer
      → (is_transport (some peer) ≡ true → is_transport (some (f peer).1) ≡ true)
      → Established k c
      → Established k (with_peer key peer f c).1
  unfolding with_peer set_peers act_then is_established
  with_peer-stays k key peer f c known keep p =
      (lift_peer-Stays {P = Established k} (f peer).0).apply _ (kept (Bool-cases (key == k)))
    where
      kept :
          (key == k ≡ true) ⊎ (key == k ≡ false)
          → is_transport (get k (insert key (f peer).1 c.peers)) ≡ true
      kept (inl same) =
          rw (get-insert key k (f peer).1 c.peers, same)
            (keep (rw (← beq→eq key k same, is_established, known) at p))
      kept (inr other) = rw (get-insert key k (f peer).1 c.peers, other) p

  pub relayed-Stays :
      (k key : Bytes) (envelope : SealedEnvelope) (session_id : Option SessionId)
      → Stays (Established {H = H} {T = T} k) (handle_relayed_message key envelope session_id)
  unfolding handle_relayed_message ◌>>=◌ act_then read_state fail
  relayed-Stays k key envelope session_id = record {
    apply = λ c p.
        found (Established k) (get key c.peers) _ _ c (λ unknown. p)
          (λ peer known.
            after {P = Established {H = H} {T = T} k}
              (with_peer key peer (λ s. decrypt_peer_channel s envelope) c)
              (λ contents. relayed_event key session_id contents.0 contents.1)
              (with_peer-stays k key peer (λ s. decrypt_peer_channel s envelope) c known
                (decrypt_peer_stays envelope peer) p)
              (λ contents. relayed_event-Stays key session_id contents.0 contents.1));
  }

module _ {H T : Type 0} ⦃bin : BinaryStream⦄ ⦃noise : TransportState T⦄ where
  with_server-Stays :
      {A : Type 0} (k : Bytes) (server : ProtocolState H T)
      (f : ProtocolState H T → Result A × ProtocolState H T)
      → Stays (Established k) (with_server server f)
  unfolding with_server set_server act_then is_established
  with_server-Stays k server f = record {
    apply = λ c p.
        (lift-Stays {P = Established k} (f server).0).apply
          (record c { server = some (f server).1 }) p;
  }

  pub server_message-Stays :
      (k : Bytes) (envelope : SealedEnvelope)
      → Stays (Established {H = H} {T = T} k) (handle_server_message envelope)
  unfolding handle_server_message ◌>>=◌ act_then read_state crash
  server_message-Stays k envelope = record {
    apply = λ c p.
        found (Established k) c.server _ _ c (λ unknown. p)
          (λ server known.
            (bind-Stays (with_server-Stays k server (λ s. decrypt_server_channel s envelope))
                (λ contents. server_contents-Stays contents.0 contents.1)).apply
              c p);
  }
