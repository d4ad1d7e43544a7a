-- ===== src/Server/Service.antt =====
-- `service` of server/src/service.rs: the requests of a client to the server. A fresh identifier
-- and the time are arguments.
use mpc_sdk_framework.Prelude.{
  ℕ, List, [], ◌∷◌, Option, none, some, insert, nat_eq, list_eq, ◌==◌, if◌then◌else◌,
}
use mpc_sdk_framework.Messages.{
  Bytes, Uuid, UserId, MeetingId, SessionId, SessionRequest, ServerMessage, new_meeting,
  meeting_created, join_meeting, new_session, session_connection, session_created, close_session,
  session_finished,
}
use mpc_sdk_framework.Meetings
use mpc_sdk_framework.Sessions
use mpc_sdk_framework.Meetings.{get_meeting, is_full, join}
use mpc_sdk_framework.Sessions.{get_session, update_session, remove_session, register_connection}
use mpc_sdk_framework.Server.State.{
  permission_denied, meeting_not_found, meeting_full, session_not_found, Serve, Task, serve_then,
  ◌>>=◌, ◌>>◌, pure, fail, read_state, write_state, read_connection, spawn,
}

module _ {H T : Type 0} where
  unfoldable pub open_meeting :
      MeetingId → ℕ → Bytes → UserId → List UserId → Serve H T (Option ServerMessage)
  unfolding ◌>>=◌ ◌>>◌ serve_then pure read_state write_state spawn Meetings.new_meeting
  open_meeting meeting_id now public_key owner_id slots = do
    server ← read_state
    write_state (record server {
      meetings = Meetings.new_meeting meeting_id now public_key owner_id slots server.meetings;
    })
    spawn (
        Task.meeting_ready
          (record { meeting_id = meeting_id; registered_participants = public_key ∷ [] }))
    pure (
        some (
          meeting_created
            (record { meeting_id = meeting_id; registered_participants = public_key ∷ [] })))

  unfoldable pub join_meeting_point :
      Uuid → ℕ → MeetingId → UserId → Serve H T (Option ServerMessage)
  unfolding ◌>>=◌ ◌>>◌ serve_then pure fail read_state write_state read_connection get_meeting
      is_full join
  join_meeting_point conn now meeting_id user_id = do
    c ← read_connection conn
    server ← read_state
    elim (get_meeting meeting_id server.meetings) [
      | none ↦ fail (meeting_not_found meeting_id)
      | some meeting ↦
          if is_full meeting
          then fail (meeting_full meeting_id)
          else (write_state (record server {
            meetings = insert meeting_id (join user_id c.public_key now meeting) server.meetings;
          })
              >> pure none)
    ]

  unfoldable pub open_session :
      SessionId → ℕ → Bytes → SessionRequest → Serve H T (Option ServerMessage)
  unfolding ◌>>=◌ ◌>>◌ serve_then pure read_state write_state spawn Sessions.new_session
  open_session session_id now public_key request = do
    server ← read_state
    write_state (record server {
      sessions =
          Sessions.new_session session_id now public_key request.participant_keys server.sessions;
    })
    spawn (
        Task.session_ready now (record {
          session_id = session_id;
          all_participants = public_key ∷ request.participant_keys;
        }))
    pure (
        some (
          session_created (record {
            session_id = session_id;
            all_participants = public_key ∷ request.participant_keys;
          })))

  unfoldable pub connect_session : Uuid → SessionId → Bytes → Serve H T (Option ServerMessage)
  unfolding ◌>>=◌ ◌>>◌ serve_then pure fail read_state write_state read_connection get_session
      update_session register_connection
  connect_session conn session_id peer_key = do
    c ← read_connection conn
    server ← read_state
    elim (get_session session_id server.sessions) [
      | none ↦ fail (session_not_found session_id)
      | some session ↦
          (write_state (record server {
            sessions =
                update_session session_id (register_connection c.public_key peer_key)
                  server.sessions;
          })
            >> pure none)
    ]

  unfoldable pub finish_session : Bytes → SessionId → Serve H T (Option ServerMessage)
  unfolding ◌>>=◌ ◌>>◌ serve_then pure fail read_state write_state get_session remove_session
  finish_session public_key session_id = do
    server ← read_state
    elim (get_session session_id server.sessions) [
      | none ↦ fail (session_not_found session_id)
      | some session ↦
          if public_key == session.owner_key
          then (write_state (record server { sessions = remove_session session_id server.sessions })
              >> pure (some (session_finished session_id)))
          else fail permission_denied
    ]

  -- `fresh` is the identifier that a new meeting or session is given.
  unfoldable pub service :
      Uuid → ℕ → Uuid → Bytes → ServerMessage → Serve H T (Option ServerMessage)
  unfolding open_meeting join_meeting_point open_session connect_session finish_session pure
  service fresh now conn public_key (new_meeting owner_id slots) =
      open_meeting fresh now public_key owner_id slots
  service fresh now conn public_key (join_meeting meeting_id user_id) =
      join_meeting_point conn now meeting_id user_id
  service fresh now conn public_key (new_session request) =
      open_session fresh now public_key request
  service fresh now conn public_key (session_connection session_id peer_key) =
      connect_session conn session_id peer_key
  service fresh now conn public_key (close_session session_id) =
      finish_session public_key session_id
  service fresh now conn public_key message = pure none
