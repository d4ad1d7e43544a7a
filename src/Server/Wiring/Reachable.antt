-- ===== src/Server/Wiring/Reachable.antt =====
-- The runs of the server as steps: a socket that opens or closes, a request and the answer to its
-- error, a turn of a polling task, the reaping of what has expired. Identifiers, times and the order
-- of the steps are arbitrary, except that `upgrade` has an identifier that no active connection has.
use mpc_sdk_framework.Prelude.{
  ℕ, ◌≡◌, ◌≢◌, refl, Bool, true, false, [], Option, none, some, get, get-remove, list_eq, nat_eq,
  ◌==◌, if◌then◌else◌, Option-cases, Bool-cases, inl, inr, beq→eq,
}
use mpc_sdk_framework.Messages.{Bytes, Uuid, RequestMessage}
use mpc_sdk_framework.Wire.{BinaryStream}
use mpc_sdk_framework.Channel.Noise.{TransportState, HandshakeState}
use mpc_sdk_framework.Server.Config.{is_forbidden}
use mpc_sdk_framework.Server.State.{Connection, World, Task, ◌>>=◌, serve_then, read_connection}
use mpc_sdk_framework.Server.Send.{Runtime, is_transport}
use mpc_sdk_framework.Server.Lifecycle.{upgrade, disconnect, purge_expired}
use mpc_sdk_framework.Server.Requests.{handle_request, answer_error}
use mpc_sdk_framework.Server.Polling.{poll}
use mpc_sdk_framework.Server.Wiring.Handshake.{IsWired, Kept-IsWired}
use mpc_sdk_framework.Server.Wiring.Turns.{answered-IsWired, Keeps-poll}

module _ {H T : Type 0} ⦃bin : BinaryStream⦄ ⦃noise : TransportState T⦄
    ⦃handshakes : HandshakeState H T⦄ ⦃runtime : Runtime⦄ where
  pub data Step (build_responder : Bytes → Option H) (w : World H T) : World H T → Type 0 where
    upgraded :
        (id : Uuid) (key : Bytes)
        → ((k : Bytes) → get k w.server.active ≢ some id)
        → Step build_responder w (upgrade build_responder id key w).1
    answered :
        (fresh : Uuid) (now : ℕ) (conn : Uuid) (message : RequestMessage)
        → Step build_responder w (answer_error conn (handle_request fresh now conn message w)).1
    polled : (now : ℕ) (task : Task) → Step build_responder w (poll now task w).1
    disconnected : (conn : Uuid) → Step build_responder w (disconnect conn w).1
    purged :
        (latest now later : ℕ)
        → Step build_responder w (record w { server = purge_expired latest now later w.server })

  pub data Reachable (build_responder : Bytes → Option H) : World H T → World H T → Type 0 where
    here : (w : World H T) → Reachable build_responder w w
    step :
        (u v w : World H T)
        → Reachable build_responder u v
        → Step build_responder v w
        → Reachable build_responder u w

module _ {H T : Type 0} where
  disconnect-IsWired : (conn : Uuid) (w : World H T) → IsWired w → IsWired (disconnect conn w).1
  unfolding disconnect ◌>>=◌ serve_then read_connection
  disconnect-IsWired conn w h = record {
    entries = λ key peer e.
        let c : Connection H T = w.connections conn in
        left key peer (c.public_key == key) (cc (e, get-remove c.public_key key w.server.active));
  }
    where
      left :
          (key : Bytes) (peer : Uuid) (b : Bool)
          → (if b then none else get key w.server.active) ≡ some peer
          → ((w.connections peer).public_key ≡ key)
            × (is_transport (w.connections peer).state ≡ true)
      left key peer true e = cc e
      left key peer false e = h.entries key peer e

  upgrade-IsWired :
      (build_responder : Bytes → Option H) (id : Uuid) (key : Bytes) (w : World H T)
      → ((k : Bytes) → get k w.server.active ≢ some id)
      → IsWired w
      → IsWired (upgrade build_responder id key w).1
  unfolding upgrade
  upgrade-IsWired build_responder id key w fresh h =
      elim (Bool-cases (is_forbidden w.server.config key)) [
        | inl p ↦ rw (p, upgrade) h
        | inr p ↦ elim (Option-cases (build_responder key)) [
          | inl q ↦ rw (p, q, upgrade) h
          | inr (responder, q) ↦
              rw (p, q, upgrade)
                (record { entries = λ k conn e. kept _ k conn (id == conn) (beq→eq id conn) e })
        ]
      ]
    where
      kept :
          (c : Connection H T) (k : Bytes) (conn : Uuid) (b : Bool)
          → (b ≡ true → id ≡ conn)
          → get k w.server.active ≡ some conn
          → ((if b then c else w.connections conn).public_key ≡ k)
            × (is_transport (if b then c else w.connections conn).state ≡ true)
      kept c k conn true f e = absurd (fresh k (cc (e, f refl)))
      kept c k conn false f e = h.entries k conn e

module _ {H T : Type 0} ⦃bin : BinaryStream⦄ ⦃noise : TransportState T⦄
    ⦃handshakes : HandshakeState H T⦄ ⦃runtime : Runtime⦄ where
  Step-IsWired :
      (build_responder : Bytes → Option H) (w w' : World H T)
      → Step build_responder w w'
      → IsWired w
      → IsWired w'
  unfolding purge_expired
  Step-IsWired build_responder w _ (upgraded id key fresh) h =
      upgrade-IsWired build_responder id key w fresh h
  Step-IsWired build_responder w _ (answered fresh now conn message) h =
      answered-IsWired fresh now conn message w h
  Step-IsWired build_responder w _ (polled now task) h =
      Kept-IsWired w _ h ((Keeps-poll now task).kept w)
  Step-IsWired build_responder w _ (disconnected conn) h = disconnect-IsWired conn w h
  Step-IsWired build_responder w _ (purged latest now later) h = record {
    entries = λ key conn e. h.entries key conn e;
  }

  -- In a server that started with no active connection, after any sequence of upgrades with fresh
  -- identifiers, requests with the answers to their errors, polling turns, disconnections and
  -- reaping, the connection that is active for a public key was opened with that key and is in
  -- transport mode.
  pub Reachable-IsWired :
      (build_responder : Bytes → Option H) (start w : World H T)
      → start.server.active ≡ []
      → Reachable build_responder start w
      → IsWired w
  unfolding get
  Reachable-IsWired build_responder start _ e (here _) = record {
    entries = λ key conn p. let q : Option.none ≡ some conn = rw e at p in cc q;
  }
  Reachable-IsWired build_responder start w e (step _ v _ run last) =
      Step-IsWired build_responder v w last (Reachable-IsWired build_responder start v e run)
