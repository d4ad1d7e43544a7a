-- ===== src/Server/Polling.antt =====
-- One turn of each of the loops `wait_for_meeting_ready`, `wait_for_session_ready` and
-- `wait_for_session_active` of server/src/service.rs, with the notices that they send. A turn gives
-- the task that goes on: the same one, the one that `wait_for_session_ready` spawns, or none.
use mpc_sdk_framework.Prelude.{
  is_some, ℕ, ◌-◌, ◌*◌, Bool, true, ◌&&◌, List, [], ◌∷◌, Option, none, some, Map, get, nat_eq,
  list_eq, ltb, if◌then◌else◌,
}
use mpc_sdk_framework.Messages.{
  Bytes, Uuid, MeetingState, SessionState, ServerMessage, session_timeout,
}
use mpc_sdk_framework.Wire.{BinaryStream}
use mpc_sdk_framework.Channel.Noise.{TransportState}
use mpc_sdk_framework.Meetings.{get_meeting, is_full, participants}
use mpc_sdk_framework.Sessions.{get_session, is_active}
use mpc_sdk_framework.Server.State.{
  done, panicked, Serve, Task, serve_then, ◌>>=◌, ◌>>◌, pure, read_state, log_error,
}
use mpc_sdk_framework.Server.Send.{Runtime, notify_peers}

-- Every participant has an active connection.
unfoldable pub all_present : Map Bytes Uuid → List Bytes → Bool
unfolding is_some
all_present active [] = true
all_present active (key ∷ keys) = is_some (get key active) && all_present active keys

-- `start_time.elapsed().unwrap() > wait_timeout`, which panics when the clock was set back.
unfoldable pub has_timed_out : {H T : Type 0} → ℕ → ℕ → ℕ → Serve H T Bool
has_timed_out start now wait_timeout w =
    if ltb now start then (panicked, w) else (done (ltb (wait_timeout * 1000) (now - start)), w)

module _ {H T : Type 0} ⦃bin : BinaryStream⦄ ⦃noise : TransportState T⦄ ⦃runtime : Runtime⦄ where
  -- An error of the notices is only logged.
  unfoldable pub notify : List Bytes → ServerMessage → Serve H T Unit
  unfolding notify_peers log_error
  notify keys message w = log_error (notify_peers keys message w)

  unfoldable pub poll_meeting_ready : MeetingState → Serve H T (Option Task)
  unfolding ◌>>=◌ ◌>>◌ serve_then pure read_state notify get_meeting is_full participants
  poll_meeting_ready meeting = do
    server ← read_state
    elim (get_meeting meeting.meeting_id server.meetings) [
      | none ↦ pure none
      | some target ↦
          if is_full target
          then (notify (participants target) (
                ServerMessage.meeting_ready (record {
                  meeting_id = meeting.meeting_id;
                  registered_participants = participants target;
                }))
              >> pure none)
          else pure (some (Task.meeting_ready meeting))
    ]

  -- The end of a turn that found the participants not ready.
  unfoldable pub wait_or_time_out : Task → ℕ → ℕ → SessionState → Serve H T (Option Task)
  unfolding ◌>>=◌ ◌>>◌ serve_then pure read_state notify has_timed_out
  wait_or_time_out task start now session = do
    server ← read_state
    late ← has_timed_out start now server.config.session.wait_timeout
    if late
        then (notify session.all_participants (session_timeout session.session_id) >> pure none)
        else pure (some task)

  unfoldable pub poll_session_ready : ℕ → ℕ → SessionState → Serve H T (Option Task)
  unfolding ◌>>=◌ ◌>>◌ serve_then pure read_state notify all_present wait_or_time_out
  poll_session_ready start now session = do
    server ← read_state
    if all_present server.active session.all_participants
        then (notify session.all_participants (ServerMessage.session_ready session)
            >> pure (some (Task.session_active now session)))
        else wait_or_time_out (Task.session_ready start session) start now session

  unfoldable pub poll_session_active : ℕ → ℕ → SessionState → Serve H T (Option Task)
  unfolding ◌>>=◌ ◌>>◌ serve_then pure read_state notify get_session is_active wait_or_time_out
  poll_session_active start now session = do
    server ← read_state
    elim (get_session session.session_id server.sessions) [
      | none ↦ pure none
      | some kept ↦
          if is_active kept
          then (notify session.all_participants (ServerMessage.session_active session) >> pure none)
          else wait_or_time_out (Task.session_active start session) start now session
    ]

  -- A turn of a task.
  unfoldable pub poll : ℕ → Task → Serve H T (Option Task)
  unfolding poll_meeting_ready poll_session_ready poll_session_active
  poll now (Task.meeting_ready meeting) = poll_meeting_ready meeting
  poll now (Task.session_ready start session) = poll_session_ready start now session
  poll now (Task.session_active start session) = poll_session_active start now session
