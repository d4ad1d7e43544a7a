-- ===== src/Server/Closing.antt =====
-- Who can end a session: `service` of server/src/service.rs.
use mpc_sdk_framework.Prelude.{
  arith, ℕ, ◌≢◌, insert, Option-cases, inl, inr, ◌≡◌, some, none, get, get-insert, get-remove,
  nat_eq, list_eq, eq_list_iff,
}
use mpc_sdk_framework.Messages.{
  Bytes, Uuid, SessionId, ServerMessage, noop, error, new_meeting, meeting_created, join_meeting,
  meeting_ready, new_session, session_connection, session_created, session_ready, session_active,
  session_timeout, close_session, session_finished,
}
use mpc_sdk_framework.Sessions
use mpc_sdk_framework.Sessions.{
  Session, Sessions, get_session, update_session, remove_session, register_connection,
}
use mpc_sdk_framework.Server.State.{World, pure, read_connection}
use mpc_sdk_framework.Server.Service.{
  service, open_meeting, join_meeting_point, open_session, connect_session, finish_session,
}

inserted :
    (k j : SessionId) (v : Session) (m : Sessions) {s : Session}
    → get j m ≡ some s
    → get j (insert k v m) ≢ none
inserted k j v m h g = ground (arith, get-insert k j v m)

updated :
    (k j : SessionId) (f : Session → Session) (m : Sessions) {s : Session}
    → get j m ≡ some s
    → get j (update_session k f m) ≢ none
unfolding update_session
updated k j f m h g = elim (Option-cases (get k m)) [
  | inl p ↦ cc (h, rw (p, update_session) at g)
  | inr (v, p) ↦ inserted k j (f v) m h (rw (p, update_session) at g)
]

module _ {H T : Type 0} where
  connected :
      (conn : Uuid) (s : SessionId) (peer : Bytes) (w : World H T)
      → (connect_session conn s peer w).1.server.sessions
        ≡ update_session s
            (register_connection (w.connections conn).public_key peer)
            w.server.sessions
  unfolding connect_session get_session update_session pure read_connection
  connected conn s peer w = ground arith

  -- A session that is there before a request to the server and gone after it was closed by that
  -- request, a `CloseSession` for it from the key that owns it.
  pub service-removed :
      (fresh : Uuid) (now : ℕ) (conn : Uuid) (key : Bytes) (message : ServerMessage) (w : World H T)
      (id : SessionId) (session : Session)
      → get_session id w.server.sessions ≡ some session
      → get_session id (service fresh now conn key message w).1.server.sessions ≡ none
      → (message ≡ close_session id) × (key ≡ session.owner_key)
  unfolding service open_meeting join_meeting_point open_session connect_session finish_session
      get_session Sessions.new_session update_session remove_session pure
  service-removed fresh now conn key (new_meeting owner slots) w id session h g = cc (h, g)
  service-removed fresh now conn key (join_meeting m u) w id session h g = ground arith
  service-removed fresh now conn key (new_session request) w id session h g =
      absurd (inserted fresh id _ w.server.sessions h g)
  service-removed fresh now conn key (session_connection s peer) w id session h g = absurd (
      updated s id (register_connection (w.connections conn).public_key peer) w.server.sessions h
        (cc (g, connected conn s peer w)))
  service-removed fresh now conn key (close_session s) w id session h g = ground (
    arith,
    get-remove s id w.server.sessions,
    eq_list_iff s id,
    eq_list_iff key session.owner_key,
  )
  service-removed fresh now conn key noop w id session h g = cc (h, g)
  service-removed fresh now conn key (error code text) w id session h g = cc (h, g)
  service-removed fresh now conn key (meeting_created s) w id session h g = cc (h, g)
  service-removed fresh now conn key (meeting_ready s) w id session h g = cc (h, g)
  service-removed fresh now conn key (session_created s) w id session h g = cc (h, g)
  service-removed fresh now conn key (session_ready s) w id session h g = cc (h, g)
  service-removed fresh now conn key (session_active s) w id session h g = cc (h, g)
  service-removed fresh now conn key (session_timeout s) w id session h g = cc (h, g)
  service-removed fresh now conn key (session_finished s) w id session h g = cc (h, g)
