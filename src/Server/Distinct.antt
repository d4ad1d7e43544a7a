-- ===== src/Server/Distinct.antt =====
-- The keys of the meetings and of the sessions, through `service` of server/src/service.rs: what the
-- reaping of Server/Reaping asks of a list of entries that stands for a hash map.
use mpc_sdk_framework.Prelude.{
  arith, ◌⊎◌, remove, ℕ, ◌≡◌, IsMap, insert-IsMap, remove-IsMap, nat_eq, list_eq, get, Option-cases,
  Bool-cases, inl, inr,
}
use mpc_sdk_framework.Messages.{
  Bytes, Uuid, SessionId, MeetingId, UserId, ServerMessage, noop, error, new_meeting,
  meeting_created, join_meeting, meeting_ready, new_session, session_connection, session_created,
  session_ready, session_active, session_timeout, close_session, session_finished,
}
use mpc_sdk_framework.Meetings
use mpc_sdk_framework.Meetings.{Meeting, get_meeting, is_full, join}
use mpc_sdk_framework.Sessions
use mpc_sdk_framework.Sessions.{
  Session, get_session, update_session, remove_session, register_connection,
}
use mpc_sdk_framework.Server.State.{
  World, ServerState, ◌>>=◌, ◌>>◌, serve_then, pure, fail, read_state, write_state, read_connection,
}
use mpc_sdk_framework.Server.Service.{
  service, open_meeting, join_meeting_point, open_session, connect_session, finish_session,
}

-- No identifier of a meeting or of a session stands twice.
abbrev pub HasDistinctIds : ServerState → Type 0
HasDistinctIds server = IsMap server.meetings × IsMap server.sessions

update_session-IsMap :
    (id : SessionId) (f : Session → Session) (sessions : Sessions.Sessions)
    → IsMap sessions
    → IsMap (update_session id f sessions)
unfolding update_session
update_session-IsMap id f sessions h = elim (Option-cases (get id sessions)) [
  | inl p ↦ rw (p, update_session) h
  | inr (s, p) ↦ rw (p, update_session) (insert-IsMap id (f s) sessions h)
]

module _ {H T : Type 0} where
  joined :
      (conn : Uuid) (now : ℕ) (m : MeetingId) (u : UserId) (w : World H T)
      → HasDistinctIds w.server
      → HasDistinctIds (join_meeting_point conn now m u w).1.server
  unfolding join_meeting_point get_meeting ◌>>=◌ ◌>>◌ serve_then fail read_state write_state
      read_connection pure get
  joined conn now m u w h = elim (Option-cases (get m w.server.meetings)) [
    | inl p ↦ rw (p, join_meeting_point) h
    | inr (meeting, p) ↦ elim (Bool-cases (is_full meeting)) [
      | inl q ↦ rw (p, q, join_meeting_point) h
      | inr q ↦ rw (p, q, join_meeting_point) (insert-IsMap m _ w.server.meetings h.0, h.1)
    ]
  ]

  connected :
      (conn : Uuid) (s : SessionId) (peer : Bytes) (w : World H T)
      → HasDistinctIds w.server
      → HasDistinctIds (connect_session conn s peer w).1.server
  unfolding connect_session get_session ◌>>=◌ ◌>>◌ serve_then fail read_state write_state
      read_connection pure get
  connected conn s peer w h = elim (Option-cases (get s w.server.sessions)) [
    | inl p ↦ rw (p, connect_session) h
    | inr (session, p) ↦
        rw (p, connect_session)
          (
            h.0,
            update_session-IsMap s (register_connection (w.connections conn).public_key peer)
                w.server.sessions h.1,
          )
  ]

  finished_either :
      (key : Bytes) (s : SessionId) (w : World H T)
      → ((finish_session key s w).1.server.meetings ≡ w.server.meetings)
        × (((finish_session key s w).1.server.sessions ≡ w.server.sessions)
            ⊎ ((finish_session key s w).1.server.sessions ≡ remove s w.server.sessions))
  unfolding finish_session get_session remove_session
  finished_either key s w = ground arith

  finished :
      (key : Bytes) (s : SessionId) (w : World H T)
      → HasDistinctIds w.server
      → HasDistinctIds (finish_session key s w).1.server
  finished key s w h =
      let (meetings, sessions) = finished_either key s w in
      (
        rw meetings h.0,
        elim sessions [ inl e ↦ rw e h.1 | inr e ↦ rw e (remove-IsMap s w.server.sessions h.1) ],
      )

  -- Whatever a client asks of the server, no identifier of a meeting or of a session comes to stand
  -- twice where none did before.
  pub service-HasDistinctIds :
      (fresh : Uuid) (now : ℕ) (conn : Uuid) (key : Bytes) (message : ServerMessage) (w : World H T)
      → HasDistinctIds w.server
      → HasDistinctIds (service fresh now conn key message w).1.server
  unfolding service open_meeting open_session Meetings.new_meeting Sessions.new_session pure
  service-HasDistinctIds fresh now conn key (new_meeting owner slots) w h =
      (insert-IsMap fresh _ w.server.meetings h.0, h.1)
  service-HasDistinctIds fresh now conn key (join_meeting m u) w h = joined conn now m u w h
  service-HasDistinctIds fresh now conn key (new_session request) w h =
      (h.0, insert-IsMap fresh _ w.server.sessions h.1)
  service-HasDistinctIds fresh now conn key (session_connection s peer) w h =
      connected conn s peer w h
  service-HasDistinctIds fresh now conn key (close_session s) w h = finished key s w h
  service-HasDistinctIds fresh now conn key noop w h = h
  service-HasDistinctIds fresh now conn key (error code text) w h = h
  service-HasDistinctIds fresh now conn key (meeting_created s) w h = h
  service-HasDistinctIds fresh now conn key (meeting_ready s) w h = h
  service-HasDistinctIds fresh now conn key (session_created s) w h = h
  service-HasDistinctIds fresh now conn key (session_ready s) w h = h
  service-HasDistinctIds fresh now conn key (session_active s) w h = h
  service-HasDistinctIds fresh now conn key (session_timeout s) w h = h
  service-HasDistinctIds fresh now conn key (session_finished s) w h = h
