-- ===== src/Client/Handshake.antt =====
-- The handshake of two clients: `connect_peer` of client/src/client.rs, `peer_handshake_responder` and
-- `peer_handshake_ack` of client/src/event_loop.rs, taken together.
use mpc_sdk_framework.Prelude.{
  arith, ℕ, zero, suc, ◌≤◌, ◌≡◌, refl, [], ◌∷◌, none, some, get, insert, remove, nat_eq, list_eq,
  length, le→ltb, get_inserted,
}
use mpc_sdk_framework.Messages.{Bytes, transparent, peer_handshake, initiator, responder}
use mpc_sdk_framework.Wire.{BinaryStream}
use mpc_sdk_framework.Keypair.{Keypair}
use mpc_sdk_framework.Channel.Noise.{
  TransportState, HandshakeState, handshake, transport, written_into,
}
use mpc_sdk_framework.Channel.Chunks.RoundTrip.{take-written_into}
use mpc_sdk_framework.Actions.{done, act_then, ◌>>=◌, ◌>>◌, read_state, pure, some_or}
use mpc_sdk_framework.Client.State.{Client, peer_connected, InternalMessage, set_peers}
use mpc_sdk_framework.Client.Options.{Builder, Codecs, params, initiator_for, responder_for}
use mpc_sdk_framework.Client.Calls.{connect_peer, handshake_payload}
use mpc_sdk_framework.Client.Incoming.{
  handle_incoming_message, peer_handshake_responder, peer_handshake_ack, read_handshake,
  finish_handshake, as_event,
}
use mpc_sdk_framework.Client.Serving.{CanSend, queued, send-queued}

-- The two messages of a handshake that both sides finish: what each writes fits into its buffer,
-- the other side reads it, and the transport states that they enter keep pace.
pub record Finishes {H T : Type 0} (handshakes : HandshakeState H T) (Paired : T → T → Type 0)
    (i r : H) : Type 0 where
  pub first : Bytes
  pub second : Bytes
  pub got : Bytes
  pub gotten : Bytes
  pub i1 : H
  pub i2 : H
  pub r1 : H
  pub r2 : H
  pub at_i : T
  pub at_r : T
  pub i_writes : handshakes.write i [] 1024 ≡ (some first, i1)
  pub first_fits : length first ≤ 1024
  pub r_reads : handshakes.read r first 1024 ≡ (some got, r1)
  pub r_writes : handshakes.write r1 [] 1024 ≡ (some second, r2)
  pub second_fits : length second ≤ 1024
  pub i_reads : handshakes.read i1 second 1024 ≡ (some gotten, i2)
  pub i_enters : handshakes.into_transport_mode i2 ≡ some at_i
  pub r_enters : handshakes.into_transport_mode r2 ≡ some at_r
  pub paired : Paired at_i at_r

-- What `snow` documents of a pattern of two messages: with parsed parameters `p`, an initiator and a
-- responder that are built on each other's keys finish.
pub record IsPattern {H T : Type 0} (builder : Builder H) (handshakes : HandshakeState H T)
    (Paired : T → T → Type 0) (IsKeypair : Keypair → Type 0) (p : Bytes) : Type 0 where
  pub finishes :
      (a b : Keypair)
      → IsKeypair a
      → IsKeypair b
      → (i : H) × (r : H) × (builder.build_initiator p a.private b.public ≡ some i)
        × (builder.build_responder p b.private a.public ≡ some r)
        × Finishes handshakes Paired i r

le-written_into : (size : ℕ) (bytes : Bytes) → length bytes ≤ length (written_into size bytes)
unfolding written_into
le-written_into zero bytes = omega arith
le-written_into (suc size) [] = omega arith
le-written_into (suc size) (b ∷ bytes) = omega (arith, le-written_into size bytes)

module _ {H T : Type 0} ⦃handshakes : HandshakeState H T⦄ where
  reads :
      (h h' : H) (message got : Bytes) (c : Client H T)
      → length message ≤ 1024
      → handshakes.read h message 1024 ≡ (some got, h')
      → read_handshake h (length message) (written_into 1024 message) c ≡ (done h', c)
  unfolding read_handshake ◌>>=◌ act_then some_or pure
  reads h h' message got c fits read =
      rw
        (
          le→ltb (length (written_into 1024 message)) (length message)
              (le-written_into 1024 message),
          take-written_into 1024 message fits,
          read,
          some_or,
          act_then,
        )
        refl

  finishes :
      (h h' : H) (t : T) (message got : Bytes) (c : Client H T)
      → length message ≤ 1024
      → handshakes.read h message 1024 ≡ (some got, h')
      → handshakes.into_transport_mode h' ≡ some t
      → finish_handshake h (length message) (written_into 1024 message) c ≡ (done t, c)
  unfolding finish_handshake ◌>>=◌ some_or
  finishes h h' t message got c fits read enters =
      rw (reads h h' message got c fits read, act_then, enters, some_or) refl

  acknowledges :
      (key : Bytes) (h h' : H) (t : T) (message got : Bytes) (c : Client H T)
      → get key c.peers ≡ some (handshake h)
      → length message ≤ 1024
      → handshakes.read h message 1024 ≡ (some got, h')
      → handshakes.into_transport_mode h' ≡ some t
      → as_event (peer_handshake_ack key (length message) (written_into 1024 message)) c ≡ (
        done (some (peer_connected key)),
        record c { peers = insert key (transport t) (remove key c.peers) },
      )
  unfolding as_event peer_handshake_ack ◌>>=◌ ◌>>◌ act_then read_state set_peers pure
  acknowledges key h h' t message got c peer fits read enters =
      rw
        (
          peer,
          finishes h h' t message got (record c { peers = remove key c.peers }) fits read enters,
          act_then,
        )
        refl

module _ {H T : Type 0} ⦃handshakes : HandshakeState H T⦄ ⦃builder : Builder H⦄
    ⦃codecs : Codecs⦄ where
  connects :
      (key : Bytes) (h h' : H) (message : Bytes) (c : Client H T)
      → get key c.peers ≡ none
      → initiator_for c.options key ≡ some h
      → handshakes.write h [] 1024 ≡ (some message, h')
      → CanSend c
      → connect_peer key c ≡ (
        done tt,
        queued
            (InternalMessage.request (
              transparent
                (peer_handshake key (initiator (length message) (written_into 1024 message)))))
            (record c { peers = insert key (handshake h') c.peers }),
      )
  unfolding connect_peer ◌>>=◌ ◌>>◌ act_then read_state set_peers some_or handshake_payload pure
  connects key h h' message c new built written room =
      rw (new, built, some_or, act_then, written, handshake_payload, some_or)
        (send-queued _ _ (record { listening = room.listening; room = room.room }))

  responds :
      (key : Bytes) (r r1 r2 : H) (t : T) (message got reply : Bytes) (c : Client H T)
      → get key c.peers ≡ none
      → responder_for c.options key ≡ some r
      → length message ≤ 1024
      → handshakes.read r message 1024 ≡ (some got, r1)
      → handshakes.write r1 [] 1024 ≡ (some reply, r2)
      → handshakes.into_transport_mode r2 ≡ some t
      → CanSend c
      → peer_handshake_responder key (length message) (written_into 1024 message) c ≡ (
        done (some (peer_connected key)),
        queued
            (InternalMessage.request (
              transparent
                (peer_handshake key (responder (length reply) (written_into 1024 reply)))))
            (record c { peers = insert key (transport t) c.peers }),
      )
  unfolding peer_handshake_responder ◌>>=◌ ◌>>◌ act_then read_state set_peers some_or
      handshake_payload pure
  responds key r r1 r2 t message got reply c new built fits read written enters room =
      rw
        (
          new,
          built,
          some_or,
          act_then,
          reads r r1 message got c fits read,
          act_then,
          written,
          handshake_payload,
          some_or,
          enters,
          send-queued
              (InternalMessage.request (
                transparent
                  (peer_handshake key (responder (length reply) (written_into 1024 reply)))))
              (record c { peers = insert key (transport t) c.peers })
              (record { listening = room.listening; room = room.room }),
          act_then,
        )
        refl

module _ {H T : Type 0} {Paired : T → T → Type 0} {IsKeypair : Keypair → Type 0}
    ⦃bin : BinaryStream⦄ ⦃noise : TransportState T⦄ ⦃handshakes : HandshakeState H T⦄
    ⦃builder : Builder H⦄ ⦃codecs : Codecs⦄ {p : Bytes}
    (pattern : IsPattern builder handshakes Paired IsKeypair p) where
  -- With noise parameters whose handshake finishes in two messages: two clients with these
  -- parameters, of which neither knows the other as a peer, and whose channels to their loops have
  -- room, connect as follows. `connect_peer` on one sends the initiator's message; the other, given
  -- that message from the first one's key, sends the responder's message and yields that it is
  -- connected to the first; the first, given that message from the second one's key, yields that it
  -- is connected to the second. Each then has the other as a peer in transport mode, and the two
  -- transport states keep pace.
  pub peers_connect :
      (c d : Client H T)
      → params c.options ≡ some p
      → params d.options ≡ some p
      → IsKeypair c.options.keypair
      → IsKeypair d.options.keypair
      → get d.options.keypair.public c.peers ≡ none
      → get c.options.keypair.public d.peers ≡ none
      → CanSend c
      → CanSend d
      → (n m : ℕ) × (hello answer : Bytes) × (c1 c2 d1 : Client H T) × (a b : T) × (connect_peer
            d.options.keypair.public c
          ≡ (
            done tt,
            queued
                (InternalMessage.request
                  (transparent (peer_handshake d.options.keypair.public (initiator n hello))))
                c1,
          ))
        × (handle_incoming_message
              (transparent (peer_handshake c.options.keypair.public (initiator n hello)))
              d
            ≡ (
              done (some (peer_connected c.options.keypair.public)),
              queued
                  (InternalMessage.request
                    (transparent (peer_handshake c.options.keypair.public (responder m answer))))
                  d1,
            ))
        × (handle_incoming_message
              (transparent (peer_handshake d.options.keypair.public (responder m answer)))
              c1
            ≡ (done (some (peer_connected d.options.keypair.public)), c2))
        × (get d.options.keypair.public c2.peers ≡ some (transport a))
        × (get c.options.keypair.public d1.peers ≡ some (transport b))
        × Paired a b
  unfolding handle_incoming_message initiator_for responder_for
  peers_connect c d at_c at_d keys_c keys_d new_c new_d room_c room_d =
      let (i, r, initiates, answers, f) =
        pattern.finishes c.options.keypair d.options.keypair keys_c keys_d in
      let to = d.options.keypair.public in
      let from = c.options.keypair.public in
      let c1 : Client H T = record c { peers = insert to (handshake f.i1) c.peers } in
      (
        length f.first,
        length f.second,
        written_into 1024 f.first,
        written_into 1024 f.second,
        c1,
        record c1 { peers = insert to (transport f.at_i) (remove to c1.peers) },
        record d { peers = insert from (transport f.at_r) d.peers },
        f.at_i,
        f.at_r,
        connects to i f.i1 f.first c new_c (rw (initiator_for, at_c) initiates) f.i_writes room_c,
        responds from r f.r1 f.r2 f.at_r f.first f.got f.second d new_d
            (rw (responder_for, at_d) answers) f.first_fits f.r_reads f.r_writes f.r_enters room_d,
        acknowledges to f.i1 f.i2 f.at_i f.second f.gotten c1
            (get_inserted to (handshake f.i1) c.peers) f.second_fits f.i_reads f.i_enters,
        get_inserted to (transport f.at_i) (remove to c1.peers),
        get_inserted from (transport f.at_r) d.peers,
        f.paired,
      )
