-- ===== src/Server/Relaying.antt =====
-- What `handle_request` of server/src/service.rs relays between clients.
use mpc_sdk_framework.Prelude.{
  ℕ, ◌≡◌, refl, true, false, [], ◌∷◌, ◌++◌, Option, some, none, get, contains, nat_eq, list_eq,
  Option-cases, Bool-cases, inl, inr,
}
use mpc_sdk_framework.Messages.{
  Bytes, Uuid, SessionId, SealedEnvelope, ResponseMessage, RequestMessage, peer_message,
}
use mpc_sdk_framework.Wire.{Result, ok, err, panic, BinaryStream}
use mpc_sdk_framework.Encoding.Encode.{encode_response}
use mpc_sdk_framework.Channel.Noise.{TransportState, HandshakeState}
use mpc_sdk_framework.Sessions.{Session, get_session, touch_session, public_keys}
use mpc_sdk_framework.Server.State.{
  Outcome, done, failed, panicked, peer_not_found, World, Serve, serve_then, ◌>>=◌, ◌>>◌, lift,
  lift_io, pure, fail, read_state, write_state, read_connection, write_connection,
}
use mpc_sdk_framework.Server.Send.{Runtime, send, send_response}
use mpc_sdk_framework.Server.Requests.{handle_request, relay, check_participant}

-- The session, if one is named, is there and has the key as a participant.
abbrev pub MayRelay : {H T : Type 0} → World H T → Bytes → Option SessionId → Type 0
MayRelay w key none = Unit
MayRelay w key (some id) =
    (session : Session) × (get_session id w.server.sessions ≡ some session)
    × (contains key (public_keys session) ≡ true)

module _ {H T : Type 0} where
  -- A sequence that is done, taken apart at its first call.
  done_then :
      {A B : Type 0} (r : Outcome A × World H T) (k : A → Serve H T B) {b : B} {w : World H T}
      → serve_then r k ≡ (done b, w)
      → (a : A) × (v : World H T) × (r ≡ (done a, v)) × (k a v ≡ (done b, w))
  unfolding serve_then
  done_then (done a, v) k e = (a, v, refl, e)
  done_then (failed x, v) k e = cc e
  done_then (panicked, v) k e = cc e

  -- Only the sessions change while the participants are checked.
  checked :
      (now : ℕ) (key : Bytes) (id : Option SessionId) (w v : World H T)
      → check_participant now key id w ≡ (done tt, v)
      → MayRelay w key id × (v.server.active ≡ w.server.active) × (v.connections ≡ w.connections)
  unfolding check_participant ◌>>=◌ ◌>>◌ serve_then read_state write_state fail pure touch_session
      get_session public_keys
  checked now key none w v e = (tt, cc e, cc e)
  checked now key (some id) w v e = elim (Option-cases (get id w.server.sessions)) [
    | inl p ↦ cc (rw (p, check_participant, touch_session) at e)
    | inr (session, p) ↦ elim (Bool-cases (contains key (public_keys session))) [
      | inl c ↦
          let f : _ = rw (p, c, check_participant, touch_session) at e in
          ((session, p, c), cc f, cc f)
      | inr c ↦ cc (rw (p, c, check_participant, touch_session) at e)
    ]
  ]

  lift_io_done :
      {A : Type 0} (r : Result A) (w v : World H T) {a : A}
      → lift_io r w ≡ (done a, v)
      → (r ≡ ok a) × (v ≡ w)
  unfolding lift_io
  lift_io_done (ok x) w v e = (cc e, cc e)
  lift_io_done (err x) w v e = cc e
  lift_io_done panic w v e = cc e

-- What is sent on a connection.
pub record IsSent {H T : Type 0} ⦃bin : BinaryStream⦄ ⦃runtime : Runtime⦄ (conn : Uuid)
    (response : ResponseMessage) (w v : World H T) : Type 0 where
  pub buffer : Bytes
  pub deflated : Bytes
  pub encoded : encode_response response ≡ ok buffer
  pub compressed : runtime.deflate buffer ≡ some deflated
  pub receiver : (w.connections conn).closed ≡ false
  pub written :
      v
      ≡ (write_connection conn
          (record (w.connections conn) {
            outgoing = (w.connections conn).outgoing ++ deflated ∷ [];
          })
          w).1

module _ {H T : Type 0} ⦃bin : BinaryStream⦄ ⦃runtime : Runtime⦄ where
  gone :
      (conn : Uuid) (buffer : Bytes) (w v : World H T)
      → send conn buffer w ≡ (done tt, v)
      → (deflated : Bytes) × (runtime.deflate buffer ≡ some deflated)
        × ((w.connections conn).closed ≡ false)
        × (v
            ≡ (write_connection conn
                (record (w.connections conn) {
                  outgoing = (w.connections conn).outgoing ++ deflated ∷ [];
                })
                w).1)
  unfolding send ◌>>=◌ serve_then lift fail read_connection write_connection
  gone conn buffer w v e = elim (Option-cases (runtime.deflate buffer)) [
    | inl p ↦ cc (rw (p, send) at e)
    | inr (deflated, p) ↦ elim (Bool-cases (w.connections conn).closed) [
      | inl q ↦ cc (rw (p, q, send) at e)
      | inr q ↦ let f : _ = rw (p, q, send) at e in (deflated, p, q, cc f)
    ]
  ]

  sent :
      (conn : Uuid) (response : ResponseMessage) (w v : World H T)
      → send_response conn response w ≡ (done tt, v)
      → IsSent conn response w v
  unfolding send_response ◌>>=◌
  sent conn response w v e =
      let (buffer, w', el, e1) =
        done_then (lift_io (encode_response response) w) (λ b. send conn b) e in
      let (encoded, same) = lift_io_done (encode_response response) w w' el in
      let (deflated, compressed, receiver, written) = gone conn buffer w v (rw same at e1) in
      record {
        buffer = buffer;
        deflated = deflated;
        encoded = encoded;
        compressed = compressed;
        receiver = receiver;
        written = written;
      }

  relayed :
      (key : Bytes) (response : ResponseMessage) (w v : World H T)
      → relay key response w ≡ (done tt, v)
      → (peer : Uuid) × (get key w.server.active ≡ some peer) × IsSent peer response w v
  unfolding relay ◌>>=◌ serve_then read_state fail
  relayed key response w v e = to_peer (get key w.server.active) e
    where
      to_peer :
          (o : Option Uuid)
          → (elim o as (λ x. Serve H T Unit) [
            | none ↦ fail (peer_not_found key)
            | some peer ↦ send_response peer response
          ])
              w
            ≡ (done tt, v)
          → (peer : Uuid) × (o ≡ some peer) × IsSent peer response w v
      to_peer none e = cc e
      to_peer (some peer) e = (peer, refl, sent peer response w v e)

module _ {H T : Type 0} ⦃bin : BinaryStream⦄ ⦃noise : TransportState T⦄
    ⦃handshakes : HandshakeState H T⦄ ⦃runtime : Runtime⦄ where
  -- A message for a peer that is handled without an error is for a key that has an active
  -- connection; if it names a session, the server keeps that session and the key is a participant
  -- of it; and the contents of the connections change by one message alone: the envelope, from the
  -- sender's key and in the same session, encoded and compressed behind what was sent on the peer's
  -- connection.
  pub handle_request-relayed :
      (fresh : Uuid) (now : ℕ) (conn : Uuid) (key : Bytes) (id : Option SessionId)
      (envelope : SealedEnvelope) (w v : World H T)
      → handle_request fresh now conn (RequestMessage.opaque (peer_message key id envelope)) w
        ≡ (done tt, v)
      → (peer : Uuid) × (u : World H T) × (get key w.server.active ≡ some peer)
        × MayRelay w key id
        × (u.connections ≡ w.connections)
        × IsSent peer
            (ResponseMessage.opaque (peer_message (w.connections conn).public_key id envelope))
            u
            v
  unfolding handle_request relay ◌>>=◌ ◌>>◌ serve_then read_connection read_state fail
  handle_request-relayed fresh now conn key id envelope w v e =
      let (x, u, ec, er) = done_then (check_participant now key id w) _ e in
      let (may, active, connections) = checked now key id w u ec in
      let (peer, found, out) =
        relayed key
          (ResponseMessage.opaque (peer_message (u.connections conn).public_key id envelope)) u v
          er in
      let same : (u.connections conn).public_key ≡ (w.connections conn).public_key =
        rw connections refl in
      (peer, u, cc (found, active), may, connections, rw (← same) out)
