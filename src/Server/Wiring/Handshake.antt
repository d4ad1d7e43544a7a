-- ===== src/Server/Wiring/Handshake.antt =====
-- The server handshake of `handle_request` in server/src/service.rs: the answer to the initiator,
-- the step into transport mode and `promote_connection`.
use mpc_sdk_framework.Prelude.{
  arith, ℕ, ◌≡◌, refl, Bool, true, false, Option, none, some, get, get-insert, nat_eq, list_eq,
  ◌==◌, beq_refl, beq→eq, eq_list_iff, if◌then◌else◌, Option-cases, inl, inr,
}
use mpc_sdk_framework.Messages.{Bytes, Uuid, ResponseMessage, responder, server_handshake}
use mpc_sdk_framework.Wire.{BinaryStream}
use mpc_sdk_framework.Channel.Noise.{HandshakeState, ProtocolState, handshake, transport}
use mpc_sdk_framework.Server.State.{
  Outcome, done, failed, panicked, Connection, World, serve_then, ◌>>=◌, ◌>>◌, fail, lift, lift_io,
  read_connection, write_connection,
}
use mpc_sdk_framework.Server.Send.{Runtime, send, send_response, is_transport}
use mpc_sdk_framework.Server.Lifecycle.{promote_connection}
use mpc_sdk_framework.Server.Requests.{
  respond, respond_to, enter_transport, server_handshake_request,
}
use mpc_sdk_framework.Server.Wiring.Kept.{Kept, write-Kept}
use mpc_sdk_framework.Server.Wiring.Handlers.{Keeps-send_response}

-- Every active connection is in transport mode, under its own public key.
pub record IsWired {H T : Type 0} (w : World H T) : Type 0 where
  pub entries :
      (key : Bytes) (conn : Uuid)
      → get key w.server.active ≡ some conn
      → ((w.connections conn).public_key ≡ key) × (is_transport (w.connections conn).state ≡ true)

module _ {H T : Type 0} where
  pub Kept-IsWired : (w w' : World H T) → IsWired w → Kept w w' → IsWired w'
  Kept-IsWired w w' h k = record {
    entries = λ key conn e.
        let before : get key w.server.active ≡ some conn = cc (e, k.active) in
        let (named, ready) = h.entries key conn before in
        (cc ((k.connections conn).public_key, named), (k.connections conn).state ready);
  }

  promote-IsWired :
      (w : World H T) (conn : Uuid)
      → IsWired w
      → is_transport (w.connections conn).state ≡ true
      → IsWired (promote_connection conn w).1
  unfolding promote_connection
  promote-IsWired w conn h t = record {
    entries = λ key peer e.
        let c : Connection H T = w.connections conn in
        promoted key peer (c.public_key == key) (beq→eq c.public_key key)
          (cc (e, get-insert c.public_key key conn w.server.active));
  }
    where
      promoted :
          (key : Bytes) (peer : Uuid) (b : Bool)
          → (b ≡ true → (w.connections conn).public_key ≡ key)
          → (if b then some conn else get key w.server.active) ≡ some peer
          → ((w.connections peer).public_key ≡ key)
            × (is_transport (w.connections peer).state ≡ true)
      promoted key peer true f e = let p : conn ≡ peer = cc e in rw (← p) (f refl, t)
      promoted key peer false f e = h.entries key peer e

module _ {H T : Type 0} ⦃bin : BinaryStream⦄ ⦃runtime : Runtime⦄ where
  send_response-state :
      (conn : Uuid) (response : ResponseMessage) (w : World H T) (id : Uuid)
      → ((send_response conn response w).1.connections id).state ≡ (w.connections id).state
  unfolding send_response send ◌>>=◌ serve_then lift lift_io fail read_connection write_connection
  send_response-state conn response w id = ground (arith, eq_list_iff conn id)

module _ {H T : Type 0} ⦃handshakes : HandshakeState H T⦄ where
  -- A responder stays in its handshake.
  pub respond-handshake :
      (len : ℕ) (buf : Bytes) (h : H) (s : ProtocolState H T)
      → (respond len buf h).1 ≡ s
      → is_transport (some s) ≡ false
  unfolding respond is_transport
  respond-handshake len buf h s e = ground (arith, e)

  -- Whatever is written into a connection that is not in transport mode, under its key.
  written-IsWired :
      (w : World H T) (conn : Uuid) (c : Connection H T)
      → IsWired w
      → is_transport (w.connections conn).state ≡ false
      → c.public_key ≡ (w.connections conn).public_key
      → IsWired (write_connection conn c w).1
  written-IsWired w conn c wired idle named =
      Kept-IsWired w _ wired
        (write-Kept conn c w (record { public_key = named; state = λ x. cc (x, idle) }))

  write-at :
      (conn : Uuid) (c : Connection H T) (w : World H T)
      → (write_connection conn c w).1.connections conn ≡ c
  unfolding write_connection
  write-at conn c w = rw (beq_refl conn) refl

  entered :
      (conn : Uuid) (w : World H T)
      → IsWired w
      → (before : Option (ProtocolState H T)) → (w.connections conn).state ≡ before
      → is_transport before ≡ false
      → IsWired ((enter_transport conn >> promote_connection conn) w).1
  unfolding enter_transport ◌>>=◌ ◌>>◌ serve_then is_transport
  entered conn w wired none e idle =
      rw (e, enter_transport) (written-IsWired w conn _ wired (rw e idle) refl)
  entered conn w wired (some (transport t)) e idle = cc idle
  entered conn w wired (some (handshake h)) e idle =
      elim (Option-cases (handshakes.into_transport_mode h)) [
        | inl p ↦ rw (e, p, enter_transport) (written-IsWired w conn _ wired (rw e idle) refl)
        | inr (t, p) ↦
            let out : Connection H T = record (w.connections conn) { state = none } in
            let c : Connection H T = record (w.connections conn) { state = some (transport t) } in
            let w' : World H T = (write_connection conn out w).1 in
            let taken : IsWired w' = written-IsWired w conn out wired (rw e idle) refl in
            let put : IsWired (write_connection conn c w').1 =
              written-IsWired w' conn c taken (rw (write-at conn out w) refl)
                (rw (write-at conn out w) refl) in
            rw (e, p, enter_transport)
              (promote-IsWired (write_connection conn c w').1 conn put
                (rw (write-at conn c w') refl))
      ]

module _ {H T : Type 0} ⦃bin : BinaryStream⦄ ⦃handshakes : HandshakeState H T⦄
    ⦃runtime : Runtime⦄ where
  replied :
      (conn : Uuid) (w : World H T) (r : Outcome (ℕ × Bytes))
      → IsWired w
      → is_transport (w.connections conn).state ≡ false
      → IsWired
          (serve_then
            (r, w)
            (λ reply. do
              send_response conn
                  (ResponseMessage.transparent (server_handshake (responder reply.0 reply.1)))
              enter_transport conn
              promote_connection conn)).1
  unfolding serve_then ◌>>=◌ ◌>>◌
  replied conn w (failed e) wired idle = wired
  replied conn w panicked wired idle = wired
  replied conn w (done (len, reply)) wired idle =
      let response : ResponseMessage =
        ResponseMessage.transparent (server_handshake (responder len reply)) in
      let w' : World H T = (send_response conn response w).1 in
      sent w' (send_response conn response w).0
        (Kept-IsWired w w' wired ((Keeps-send_response conn response).kept w))
        (rw (send_response-state conn response w conn) idle)
    where
      sent :
          (w : World H T) (r : Outcome Unit)
          → IsWired w
          → is_transport (w.connections conn).state ≡ false
          → IsWired (serve_then (r, w) (λ _. enter_transport conn >> promote_connection conn)).1
      sent w (failed e) wired idle = wired
      sent w panicked wired idle = wired
      sent w (done x) wired idle = entered conn w wired (w.connections conn).state refl idle

  pub server_handshake-IsWired :
      (conn : Uuid) (len : ℕ) (buf : Bytes) (w : World H T)
      → IsWired w
      → IsWired (server_handshake_request conn len buf w).1
  unfolding server_handshake_request respond_to ◌>>=◌ serve_then is_transport
  server_handshake-IsWired conn len buf w wired = by_state (w.connections conn).state refl
    where
      by_state :
          (before : Option (ProtocolState H T))
          → (w.connections conn).state ≡ before
          → IsWired (server_handshake_request conn len buf w).1
      by_state none e = rw (e, server_handshake_request, respond_to) wired
      by_state (some (transport t)) e = rw (e, server_handshake_request, respond_to) wired
      by_state (some (handshake h)) e =
          let s : ProtocolState H T = (respond len buf h).1 in
          let c : Connection H T = record (w.connections conn) { state = some s } in
          let w' : World H T = (write_connection conn c w).1 in
          let idle : is_transport (some s) ≡ false = respond-handshake len buf h s refl in
          rw (e, server_handshake_request, respond_to)
            (replied conn w' (respond len buf h).0 (written-IsWired w conn c wired (rw e refl) refl)
              (rw (write-at conn c w) idle))
