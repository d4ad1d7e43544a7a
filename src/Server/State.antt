-- ===== src/Server/State.antt =====
-- The state of the server and of its sockets, and the calls that change it. A connection, an
-- `Arc<RwLock<_>>` that several maps share, is the identifier that `upgrade` gives it, and its
-- contents are found by it. A handler runs as one step: what other tasks do while it waits for a lock
-- or a channel is not modelled.
use mpc_sdk_framework.Prelude.{
  ℕ, Bool, List, [], ◌∷◌, ◌++◌, Option, Map, nat_eq, list_eq, ◌==◌, if◌then◌else◌,
}
use mpc_sdk_framework.Messages.{Bytes, Uuid, SessionId, MeetingId, MeetingState, SessionState}
use mpc_sdk_framework.Wire
use mpc_sdk_framework.Wire.{Result, ok, err, panic}
use mpc_sdk_framework.Channel.Noise.{ProtocolState}
use mpc_sdk_framework.Meetings.{Meetings}
use mpc_sdk_framework.Sessions.{Sessions}
use mpc_sdk_framework.Server.Config.{ServerConfig}

-- The errors of server/src/error.rs that the service returns, and those of the protocol crate. Where
-- the error holds the hexadecimal text of a key, this holds the key.
pub data Error : Type 0 where
  permission_denied not_handshake_state snow message_mpsc_send : Error
  peer_not_found : Bytes → Error
  meeting_not_found meeting_full : MeetingId → Error
  session_not_found : SessionId → Error
  not_session_participant : SessionId → Bytes → Error
  io protocol : Wire.Error → Error

pub data Outcome (A : Type 0) : Type 0 where
  done : A → Outcome A
  failed : Error → Outcome A
  panicked : Outcome A

-- `WebSocketConnection`, less the `incoming` end that only the read loop of the socket uses.
-- `outgoing` is what has been given to the channel to the socket, `closed` that its receiver is
-- gone.
pub record Connection (H T : Type 0) : Type 0 where
  pub id : Uuid
  pub public_key : Bytes
  pub outgoing : List Bytes
  pub closed : Bool
  pub state : Option (ProtocolState H T)

-- `ServerState`, less the keypair, which only serves the builder that `upgrade` is given.
pub record ServerState : Type 0 where
  pub config : ServerConfig
  pub pending : Map Uuid Uuid
  pub active : Map Bytes Uuid
  pub meetings : Meetings
  pub sessions : Sessions

-- The polling tasks that have been spawned, with the time at which they were.
pub data Task : Type 0 where
  meeting_ready : MeetingState → Task
  session_ready session_active : ℕ → SessionState → Task

pub record World (H T : Type 0) : Type 0 where
  pub server : ServerState
  pub connections : Uuid → Connection H T
  pub tasks : List Task

abbrev pub Serve : Type 0 → Type 0 → Type 0 → Type 0
Serve H T A = World H T → Outcome A × World H T

module _ {H T A B : Type 0} where
  unfoldable pub serve_then : Outcome A × World H T → (A → Serve H T B) → Outcome B × World H T
  serve_then (done a, w) k = k a w
  serve_then (failed e, w) k = (failed e, w)
  serve_then (panicked, w) k = (panicked, w)

  infixl 5 ◌>>=◌ ◌>>◌
  unfoldable pub ◌>>=◌ : Serve H T A → (A → Serve H T B) → Serve H T B
  unfolding serve_then
  ◌>>=◌ m k w = serve_then (m w) k

  unfoldable pub ◌>>◌ : Serve H T A → Serve H T B → Serve H T B
  unfolding ◌>>=◌
  ◌>>◌ m n = m >>= λ _. n

module _ {H T : Type 0} where
  unfoldable pub pure : {A : Type 0} → A → Serve H T A
  pure a w = (done a, w)

  unfoldable pub fail : {A : Type 0} → Error → Serve H T A
  fail e w = (failed e, w)

  -- `?` on a result of the protocol crate.
  unfoldable pub lift : {A : Type 0} → Result A → Serve H T A
  lift (ok a) w = (done a, w)
  lift (err e) w = (failed (protocol e), w)
  lift panic w = (panicked, w)

  -- `?` on the encoding or decoding of a message, whose errors are `std::io::Error`.
  unfoldable pub lift_io : {A : Type 0} → Result A → Serve H T A
  lift_io (ok a) w = (done a, w)
  lift_io (err e) w = (failed (io e), w)
  lift_io panic w = (panicked, w)

  unfoldable pub read_state : Serve H T ServerState
  read_state w = (done w.server, w)

  unfoldable pub write_state : ServerState → Serve H T Unit
  write_state s w = (done tt, record w { server = s })

  unfoldable pub read_connection : Uuid → Serve H T (Connection H T)
  read_connection conn w = (done (w.connections conn), w)

  unfoldable pub write_connection : Uuid → Connection H T → Serve H T Unit
  write_connection conn c w =
      (done tt, record w { connections = λ id. if conn == id then c else w.connections id })

  -- `tokio::task::spawn` of one of the polling loops.
  unfoldable pub spawn : Task → Serve H T Unit
  spawn task w = (done tt, record w { tasks = w.tasks ++ task ∷ [] })

  -- `if let Err(e) = … { tracing::error!(…) }`.
  unfoldable pub log_error : Outcome Unit × World H T → Outcome Unit × World H T
  log_error (done a, w) = (done a, w)
  log_error (failed e, w) = (done tt, w)
  log_error (panicked, w) = (panicked, w)
