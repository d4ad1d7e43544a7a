-- ===== src/Client/Broadcasting.antt =====
-- To whom `relay_broadcast` of client/src/client.rs hands a payload, and where it stops.
use mpc_sdk_framework.Prelude.{
  ◌≡◌, sym, ap, ◌≢◌, ◌⊎◌, inl, inr, refl, ◌∙◌, true, List, [], ◌∷◌, ◌++◌, append_assoc, append-nil,
  map, Option, none, some, get, insert, nat_eq, list_eq, length, ltb, Bool-cases,
}
use mathlib.Core.Path.{subst}
use mpc_sdk_framework.Messages.{Bytes, SessionId, Encoding, Chunk, opaque, peer_message}
use mpc_sdk_framework.Wire.{Result, ok, err, panic}
use mpc_sdk_framework.Channel.Noise.{TransportState, ProtocolState, handshake, transport}
use mpc_sdk_framework.Channel.Chunks.{split}
use mpc_sdk_framework.Channel.Envelopes.{encrypt_peer_channel, in_transport}
use mpc_sdk_framework.Actions.{
  Outcome, done, failed, panicked, waiting, act_then, ◌>>=◌, ◌>>◌, pure, fail, read_state,
}
use mpc_sdk_framework.Client.State.{
  Client, Act, Error, InternalMessage, channel_size, send, lift_peer, with_peer, set_peers,
  peer_error, peer_not_found,
}
use mpc_sdk_framework.Client.Calls.{relay, relay_broadcast}

-- The copy of a broadcast for one key.
unfoldable pub broadcast_copy : SessionId → Encoding → Bytes × List Chunk → InternalMessage
broadcast_copy session_id encoding (key, chunks) = InternalMessage.request (
    opaque (
      peer_message key (some session_id)
        (record { encoding = encoding; chunks = chunks; broadcast = true })))

module _ {H T : Type 0} where
  -- A call that queues one message, or fails and queues none.
  abbrev Queues :
      List InternalMessage
      → (A : Type 0) → (A → InternalMessage)
      → Outcome Error Unit × Client H T
      → Type 0
  Queues before A message r =
      ((r.0 ≡ done tt) × ((a : A) × (r.1.outbound ≡ before ++ message a ∷ [])))
      ⊎ ((r.0 ≢ done tt) × (r.1.outbound ≡ before))

  send-Queues :
      {A : Type 0} (message : A → InternalMessage) (a : A) (c : Client H T)
      → Queues c.outbound A message (send (message a) c)
  unfolding send
  send-Queues message a c = elim (Bool-cases c.listening) [
    | inr deaf ↦ rw deaf (inr (λ e. cc e, refl))
    | inl hears ↦ elim (Bool-cases (ltb (length c.outbound) channel_size)) [
      | inr full ↦ rw (hears, full) (inr (λ e. cc e, refl))
      | inl room ↦ rw (hears, room) (inl (refl, (a, refl)))
    ]
  ]

module _ {H T : Type 0} ⦃noise : TransportState T⦄ (session_id : SessionId) (payload : Bytes)
    (encoding : Encoding) where
  -- What becomes of the chunks that a payload is cut into.
  abbrev handed : Bytes → Result (List Chunk) → Client H T → Outcome Error Unit × Client H T
  handed key (ok chunks) c = send (broadcast_copy session_id encoding (key, chunks)) c
  handed key (err e) c = (failed (peer_error e), c)
  handed key panic c = (panicked, c)

  handed-Queues :
      (key : Bytes) (r : Result (List Chunk)) (c : Client H T)
      → Queues c.outbound
          (List Chunk)
          (λ chunks. broadcast_copy session_id encoding (key, chunks))
          (handed key r c)
  handed-Queues key (ok chunks) c =
      send-Queues (λ chunks. broadcast_copy session_id encoding (key, chunks)) chunks c
  handed-Queues key (err e) c = inr (λ e. cc e, refl)
  handed-Queues key panic c = inr (λ e. cc e, refl)

  hands :
      (key : Bytes) (t : T) (c : Client H T) (r : Result (List Chunk) × T)
      → (with_peer key (transport t) (λ s.
              in_transport
                (λ chunks. opaque (
                  peer_message key
                    (some session_id)
                    (record { encoding = encoding; chunks = chunks; broadcast = true })))
                r)
            >>= λ request. send (InternalMessage.request request))
          c
        ≡ handed key r.0 (record c { peers = insert key (transport r.1) c.peers })
  unfolding ◌>>=◌ act_then with_peer set_peers lift_peer in_transport broadcast_copy
  hands key t c (ok chunks, t') = refl
  hands key t c (err e, t') = refl
  hands key t c (panic, t') = refl

  relay-Queues :
      (key : Bytes) (c : Client H T)
      → Queues c.outbound
          (List Chunk)
          (λ chunks. broadcast_copy session_id encoding (key, chunks))
          (relay key payload encoding true (some session_id) c)
  unfolding relay ◌>>=◌ act_then read_state fail with_peer set_peers lift_peer encrypt_peer_channel
  relay-Queues key c = looked (get key c.peers) refl
    where
      looked :
          (o : Option (ProtocolState H T))
          → get key c.peers ≡ o
          → Queues c.outbound
              (List Chunk)
              (λ chunks. broadcast_copy session_id encoding (key, chunks))
              ((elim o as (λ x. Act H T Unit) [
                | none ↦ fail (peer_not_found key)
                | some peer ↦
                    with_peer key peer
                      (λ s. encrypt_peer_channel key s payload encoding true (some session_id))
                    >>= λ request. send (InternalMessage.request request)
              ])
                c)
      looked none known = inr (λ e. cc e, refl)
      looked (some (handshake h)) known = inr (λ e. cc e, refl)
      looked (some (transport t)) known =
          subst
            (λ r.
              Queues c.outbound (List Chunk)
                (λ chunks. broadcast_copy session_id encoding (key, chunks)) r)
            (sym (hands key t c (split payload t)))
            (handed-Queues key (split payload t).0
              (record c { peers = insert key (transport (split payload t).1) c.peers }))

-- The copies that a broadcast has queued, in the order of its keys, and the keys that it has not come to.
pub record Broadcasts (session_id : SessionId) (encoding : Encoding) (keys : List Bytes)
    (before after : List InternalMessage) (IsDone : Type 0) : Type 0 where
  pub sent : List (Bytes × List Chunk)
  pub left : List Bytes
  pub queued : after ≡ before ++ map (broadcast_copy session_id encoding) sent
  pub in_order : map (λ s. s.0) sent ++ left ≡ keys
  pub ended : (IsDone × (left ≡ [])) ⊎ ((¬ IsDone) × (left ≢ []))

pub Broadcasts-same :
    {session_id : SessionId} {encoding : Encoding} {keys : List Bytes}
    {before after : List InternalMessage} {IsDone IsOver : Type 0}
    → (IsDone → IsOver)
    → (IsOver → IsDone)
    → Broadcasts session_id encoding keys before after IsDone
    → Broadcasts session_id encoding keys before after IsOver
Broadcasts-same over back b = record {
  sent = b.sent;
  left = b.left;
  queued = b.queued;
  in_order = b.in_order;
  ended = elim b.ended [
    | inl (done_, none_left) ↦ inl (over done_, none_left)
    | inr (fails, some_left) ↦ inr (λ o. fails (back o), some_left)
  ];
}

module _ {H T : Type 0} ⦃noise : TransportState T⦄ (session_id : SessionId) (payload : Bytes)
    (encoding : Encoding) where
  -- A broadcast that goes on after the copy of its first key.
  goes_on :
      (key : Bytes) (keys : List Bytes) (before : List InternalMessage)
      (r : Outcome Error Unit × Client H T) (k : Client H T → Outcome Error Unit × Client H T)
      → Queues before (List Chunk) (λ chunks. broadcast_copy session_id encoding (key, chunks)) r
      → ((c : Client H T)
          → Broadcasts session_id encoding keys c.outbound (k c).1.outbound ((k c).0 ≡ done tt))
      → Broadcasts session_id encoding
          (key ∷ keys)
          before
          (act_then r (λ _. k)).1.outbound
          ((act_then r (λ _. k)).0 ≡ done tt)
  unfolding act_then
  goes_on key keys before (done u, c) k (inl (e, (chunks, queue))) next =
      let rest = next c in
      record {
        sent = (key, chunks) ∷ rest.sent;
        left = rest.left;
        queued =
            rest.queued
            ∙ ap (λ q. q ++ map (broadcast_copy session_id encoding) rest.sent) queue
            ∙ append_assoc before (broadcast_copy session_id encoding (key, chunks) ∷ [])
                (map (broadcast_copy session_id encoding) rest.sent);
        in_order = ap (λ ks. key ∷ ks) rest.in_order;
        ended = rest.ended;
      }
  goes_on key keys before (done u, c) k (inr (fails, queue)) next = absurd (fails refl)
  goes_on key keys before (failed x, c) k (inl (e, queue)) next = cc e
  goes_on key keys before (panicked, c) k (inl (e, queue)) next = cc e
  goes_on key keys before (waiting, c) k (inl (e, queue)) next = cc e
  goes_on key keys before (failed x, c) k (inr (fails, queue)) next = record {
    sent = [];
    left = key ∷ keys;
    queued = rw (queue, append-nil before) refl;
    in_order = refl;
    ended = inr (fails, λ e. cc e);
  }
  goes_on key keys before (panicked, c) k (inr (fails, queue)) next = record {
    sent = [];
    left = key ∷ keys;
    queued = rw (queue, append-nil before) refl;
    in_order = refl;
    ended = inr (fails, λ e. cc e);
  }
  goes_on key keys before (waiting, c) k (inr (fails, queue)) next = record {
    sent = [];
    left = key ∷ keys;
    queued = rw (queue, append-nil before) refl;
    in_order = refl;
    ended = inr (fails, λ e. cc e);
  }

  pub relay_broadcast-Broadcasts :
      (keys : List Bytes) (c : Client H T)
      → Broadcasts session_id encoding keys c.outbound
          (relay_broadcast session_id keys payload encoding c).1.outbound
          ((relay_broadcast session_id keys payload encoding c).0 ≡ done tt)
  unfolding relay_broadcast ◌>>◌ ◌>>=◌ pure
  relay_broadcast-Broadcasts [] c = record {
    sent = [];
    left = [];
    queued = rw (append-nil c.outbound) refl;
    in_order = refl;
    ended = inl (refl, refl);
  }
  relay_broadcast-Broadcasts (key ∷ keys) c =
      goes_on key keys c.outbound (relay key payload encoding true (some session_id) c)
        (relay_broadcast session_id keys payload encoding)
        (relay-Queues session_id payload encoding key c) (relay_broadcast-Broadcasts keys)
