-- ===== src/Server/Lifecycle.antt =====
-- How connections come and go, and the reaping of what has expired: `upgrade` and `disconnect` of
-- server/src/websocket.rs, `promote_connection` of server/src/service.rs and one turn of the loop
-- of `purge_expired` of server/src/server.rs. Parsing the noise pattern and building the
-- responder are a parameter: the state of a responder that knows the client's key, or `none`.
use mpc_sdk_framework.Prelude.{
  ℕ, false, [], Option, none, some, insert, remove, nat_eq, list_eq, ◌==◌, if◌then◌else◌,
}
use mpc_sdk_framework.Messages.{Bytes, Uuid}
use mpc_sdk_framework.Channel.Noise.{handshake}
use mpc_sdk_framework.Expiry.{remove_each}
use mpc_sdk_framework.Meetings
use mpc_sdk_framework.Sessions
use mpc_sdk_framework.Server.Config.{is_forbidden}
use mpc_sdk_framework.Server.State.{
  ServerState, World, Serve, serve_then, ◌>>=◌, ◌>>◌, read_state, write_state, read_connection,
}

pub data StatusCode : Type 0 where
  forbidden internal_server_error : StatusCode

-- What `upgrade` does up to the start of the socket: the status that it answers, or `none` when
-- the connection is taken. `id` is a fresh identifier.
unfoldable pub upgrade :
    {H T : Type 0} → (Bytes → Option H) → Uuid → Bytes → World H T → Option StatusCode × World H T
unfolding is_forbidden
upgrade build_responder id public_key w =
    if is_forbidden w.server.config public_key
    then (some forbidden, w)
    else elim (build_responder public_key) [
      | none ↦ (some internal_server_error, w)
      | some responder ↦ (
        none,
        record w {
          server = record w.server { pending = insert id id w.server.pending };
          connections = λ j.
              if id == j
              then record {
                id = id;
                public_key = public_key;
                outgoing = [];
                closed = false;
                state = some (handshake responder);
              }
              else w.connections j;
        },
      )
    ]

module _ {H T : Type 0} where
  unfoldable pub promote_connection : Uuid → Serve H T Unit
  unfolding ◌>>=◌ ◌>>◌ serve_then read_state write_state read_connection
  promote_connection conn = do
    c ← read_connection conn
    server ← read_state
    write_state (record server {
      pending = remove c.id server.pending;
      active = insert c.public_key conn server.active;
    })

  unfoldable pub disconnect : Uuid → Serve H T Unit
  unfolding ◌>>=◌ ◌>>◌ serve_then read_state write_state read_connection
  disconnect conn = do
    c ← read_connection conn
    server ← read_state
    write_state (record server {
      pending = remove c.id server.pending;
      active = remove c.public_key server.active;
    })

-- `latest` is the last time that the platform represents; the clock is read twice.
unfoldable pub purge_expired : ℕ → ℕ → ℕ → ServerState → ServerState
unfolding Meetings.expired_keys Sessions.expired_keys remove_each
purge_expired latest now later server =
    let timeout : ℕ = server.config.session.timeout in
    record server {
      meetings =
          remove_each (Meetings.expired_keys latest now timeout server.meetings) server.meetings;
      sessions =
          remove_each (Sessions.expired_keys latest later timeout server.sessions) server.sessions;
    }
