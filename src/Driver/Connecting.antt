-- ===== src/Driver/Connecting.antt =====
-- What the handlers of driver/src/session.rs connect to when a session is ready.
use mpc_sdk_framework.Prelude.{
  is_some, arith, ◌≡◌, refl, ◌∙◌, Bool, true, false, ◌||◌, List, [], ◌∷◌, Option, none, some, Map,
  get, insert, get-insert, contains, nat_eq, list_eq, ◌==◌, if◌then◌else◌, Option-cases, inl, inr,
}
use mpc_sdk_framework.Messages.{Bytes, SessionState, transparent, peer_handshake, initiator}
use mpc_sdk_framework.Wire.{BinaryStream}
use mpc_sdk_framework.Channel.Noise.{TransportState, HandshakeState, ProtocolState, handshake}
use mpc_sdk_framework.Sessions.{connections}
use mpc_sdk_framework.Actions.{
  Outcome, done, failed, panicked, waiting, act_then, ◌>>=◌, ◌>>◌, pure, fail, some_or, read_state,
  write_state, act_cases, bind-Stays,
}
use mpc_sdk_framework.Client
use mpc_sdk_framework.Client.State.{
  Act, peer_already_exists, snow, request, Act, Client, InternalMessage, set_peers, send,
  session_ready, channel_size,
}
use mpc_sdk_framework.Client.Options.{Builder, Codecs, initiator_for}
use mpc_sdk_framework.Client.Calls.{public_key, connect_peer, handshake_payload}
use mpc_sdk_framework.Client.Stays.{IsOfChannels, send-Stays, handshake_payload-Stays}
use mpc_sdk_framework.Driver.State.{Error}
use mpc_sdk_framework.Driver.Bridge.{client_outcome}
use mpc_sdk_framework.Driver.Session.{
  SessionParticipant, connect_peers, connect_session, by_participant, participant_handle_event,
}

is_some_if :
    {A : Type 0} (b : Bool) (a : A) (o : Option A)
    → is_some (if b then some a else o) ≡ (b || is_some o)
unfolding is_some
is_some_if true a o = refl
is_some_if false a o = refl

module _ {H T : Type 0} where
  -- Whether a client has a peer, in either protocol state.
  unfoldable pub has_peer : Bytes → Client H T → Bool
  unfolding is_some
  has_peer key c = is_some (get key c.peers)

  of_peers :
      (peers : Map Bytes (ProtocolState H T)) → IsOfChannels {H = H} {T = T} (λ d. d.peers ≡ peers)
  of_peers peers = record { stays = λ c d server same p. same ∙ p }

module _ {H T : Type 0} where
  -- What `connect_peer` does when the peer is kept.
  abbrev announce : Bytes → Option Bytes → Act H T Unit
  announce key message = do
    (len, payload) ← handshake_payload message
    send (request (transparent (peer_handshake key (initiator len payload))))

  peers-announce :
      (key : Bytes) (message : Option Bytes) (c : Client H T)
      → (announce key message c).1.peers ≡ c.peers
  peers-announce key message c =
      (bind-Stays {P = λ d. d.peers ≡ c.peers} (handshake_payload-Stays message)
          (λ payload. send-Stays (of_peers c.peers) _)).apply
        c refl

module _ {H T : Type 0} ⦃handshakes : HandshakeState H T⦄ ⦃builder : Builder H⦄
    ⦃codecs : Codecs⦄ where
  connects :
      (key : Bytes) (h : H) (c : Client H T)
      → get key c.peers ≡ none
      → initiator_for {H = H} c.options key ≡ some h
      → connect_peer key c
        ≡ announce key
            (handshakes.write h [] 1024).0
            (record c { peers = insert key (handshake (handshakes.write h [] 1024).1) c.peers })
  unfolding connect_peer ◌>>=◌ ◌>>◌ act_then read_state some_or set_peers
  connects key h c new built = rw (new, built, some_or, act_then) refl

  refuses :
      (key : Bytes) (peer : ProtocolState H T) (c : Client H T)
      → get key c.peers ≡ some peer
      → connect_peer key c ≡ (failed peer_already_exists, c)
  unfolding connect_peer ◌>>=◌ ◌>>◌ act_then read_state fail
  refuses key peer c known = rw (known, act_then) refl

  fails :
      (key : Bytes) (c : Client H T)
      → get key c.peers ≡ none
      → initiator_for {H = H} c.options key ≡ none
      → connect_peer key c ≡ (failed snow, c)
  unfolding connect_peer ◌>>=◌ ◌>>◌ act_then read_state some_or
  fails key c new unbuilt = rw (new, unbuilt, some_or, act_then) refl

  connected :
      (key k : Bytes) (c c' : Client H T)
      → connect_peer key c ≡ (done tt, c')
      → has_peer k c' ≡ (key == k || has_peer k c)
  unfolding has_peer is_some
  connected key k c c' e = elim (Option-cases (get key c.peers)) [
    | inr (peer, known) ↦ cc (refuses key peer c known, e)
    | inl new ↦ elim (Option-cases (initiator_for {H = H} c.options key)) [
      | inl unbuilt ↦ cc (fails key c new unbuilt, e)
      | inr (h, built) ↦
          let s = handshake (handshakes.write h [] 1024).1 in
          let kept =
            peers-announce key (handshakes.write h [] 1024).0
              (record c { peers = insert key s c.peers }) in
          let same : c'.peers ≡ insert key s c.peers =
            rw (← connects key h c new built, e) at kept in
          rw (same, get-insert key k s c.peers) (is_some_if (key == k) s (get k c.peers))
    ]
  ]

  connected_all :
      (keys : List Bytes) (k : Bytes) (c c' : Client H T)
      → connect_peers keys c ≡ (done tt, c')
      → has_peer k c' ≡ (contains k keys || has_peer k c)
  unfolding connect_peers ◌>>◌ ◌>>=◌ pure contains
  connected_all [] k c c' e = cc e
  connected_all (key ∷ keys) k c c' e =
      let (x, d, first, rest) = act_cases (connect_peer key c) _ e in
      rw (connected_all keys k d c' rest, connected key k c d first) (ground arith)

module _ {H T : Type 0} where
  by_client :
      (m : Act H T Unit) (p t : SessionParticipant H T)
      → by_participant m p ≡ (done tt, t)
      → (m p.transport ≡ (done tt, t.transport)) × (t.session_state ≡ p.session_state)
  unfolding by_participant client_outcome
  by_client m p t e = ended (m p.transport) e
    where
      ended :
          (r : Outcome Client.State.Error Unit × Client H T)
          → ◌≡◌ {A = Outcome Error Unit × SessionParticipant H T}
              (client_outcome r.0, record p { transport = r.1 })
              (done tt, t)
          → (r ≡ (done tt, t.transport)) × (t.session_state ≡ p.session_state)
      ended (done x, c) e = (cc e, cc e)
      ended (failed x, c) e = cc e
      ended (panicked, c) e = cc e
      ended (waiting, c) e = cc e

module _ {H T : Type 0} ⦃bin : BinaryStream⦄ ⦃noise : TransportState T⦄
    ⦃handshakes : HandshakeState H T⦄ ⦃builder : Builder H⦄ ⦃codecs : Codecs⦄ where
  -- A participant that handles `SessionReady` without an error goes on to wait, keeps the session, and
  -- has as peers those that it had and those that the session tells it to connect to, and no others.
  pub participant_handle_ready :
      (session : SessionState) (s s' : SessionParticipant H T) (o : Option SessionState) (k : Bytes)
      → participant_handle_event (session_ready session) s ≡ (done o, s')
      → (o ≡ none)
        × (s'.session_state ≡ some session)
        × (has_peer k s'.transport
            ≡ (contains k (connections session (public_key s.transport)) || has_peer k s.transport))
  unfolding participant_handle_event ◌>>=◌ ◌>>◌ act_then read_state write_state pure by_participant
      connect_session
  participant_handle_ready session s s' o k e =
      let (x, t, made, rest) =
        act_cases
          (by_participant (connect_session session) (record s { session_state = some session })) _
          e in
      let (went, kept) = by_client (connect_session session) _ t made in
      let all =
        connected_all (connections session (public_key s.transport)) k s.transport t.transport
          went in
      let same : s' ≡ t = cc rest in (cc rest, rw same kept, rw same all)
