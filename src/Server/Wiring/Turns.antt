-- ===== src/Server/Wiring/Turns.antt =====
-- A request, the answer to its error, and a turn of a polling task of server/src/service.rs, as
-- steps on the connections.
use mpc_sdk_framework.Prelude.{
  ℕ, Bool, true, false, List, Option, none, some, list_eq, nat_eq, if◌then◌else◌, Bool-cases, inl,
  inr, ltb,
}
use mpc_sdk_framework.Messages.{
  Bytes, Uuid, SessionState, ServerMessage, RequestMessage, ResponseMessage, initiator, responder,
  server_handshake, peer_handshake, server_message, peer_message, noop, error, session_timeout,
}
use mpc_sdk_framework.Wire.{BinaryStream}
use mpc_sdk_framework.Channel.Noise.{TransportState, HandshakeState}
use mpc_sdk_framework.Meetings.{get_meeting, is_full}
use mpc_sdk_framework.Sessions.{get_session, is_active}
use mpc_sdk_framework.Server.State.{Outcome, done, failed, panicked, World, Serve, Task, ◌>>◌, pure}
use mpc_sdk_framework.Server.Send.{Runtime, notify_peers, handle_error}
use mpc_sdk_framework.Server.Requests.{handle_request, answer_error}
use mpc_sdk_framework.Server.Polling.{
  has_timed_out, notify, all_present, poll_meeting_ready, wait_or_time_out, poll_session_ready,
  poll_session_active, poll,
}
use mpc_sdk_framework.Server.Wiring.Kept.{
  Keeps, Kept-refl, Keeps-then, Keeps-pure, Keeps-read_state, Keeps-read_connection, Kept-log_error,
  Keeps-lookup, Keeps-choice,
}
use mpc_sdk_framework.Server.Wiring.Handlers.{
  Keeps-notify_peers, Keeps-handle_error, Keeps-relay, Keeps-check_participant,
  Keeps-server_request,
}
use mpc_sdk_framework.Server.Wiring.Handshake.{IsWired, Kept-IsWired, server_handshake-IsWired}

module _ {H T : Type 0} where
  Keeps-IsWired :
      {A : Type 0} (m : Serve H T A) (w : World H T) → Keeps m → IsWired w → IsWired (m w).1
  Keeps-IsWired m w h wired = Kept-IsWired w (m w).1 wired (h.kept w)

module _ {H T : Type 0} ⦃bin : BinaryStream⦄ ⦃noise : TransportState T⦄
    ⦃handshakes : HandshakeState H T⦄ ⦃runtime : Runtime⦄ where
  request-IsWired :
      (fresh : Uuid) (now : ℕ) (conn : Uuid) (message : RequestMessage) (w : World H T)
      → IsWired w
      → IsWired (handle_request fresh now conn message w).1
  unfolding handle_request pure ◌>>◌
  request-IsWired fresh now conn noop w h = h
  request-IsWired fresh now conn (RequestMessage.transparent noop) w h = h
  request-IsWired fresh now conn (RequestMessage.transparent (error code text)) w h = h
  request-IsWired fresh now conn (RequestMessage.transparent (server_handshake noop)) w h = h
  request-IsWired fresh now conn (RequestMessage.transparent (server_handshake (responder len buf)))
        w h =
      h
  request-IsWired fresh now conn (RequestMessage.transparent (server_handshake (initiator len buf)))
        w h =
      server_handshake-IsWired conn len buf w h
  request-IsWired fresh now conn (RequestMessage.transparent (peer_handshake key message)) w h =
      Keeps-IsWired _ w
        (Keeps-then _ _ (Keeps-read_connection conn) (λ c.
          Keeps-relay key (ResponseMessage.transparent (peer_handshake c.public_key message))))
        h
  request-IsWired fresh now conn (RequestMessage.opaque noop) w h = h
  request-IsWired fresh now conn (RequestMessage.opaque (server_message envelope)) w h =
      Keeps-IsWired _ w (Keeps-server_request fresh now conn envelope) h
  request-IsWired fresh now conn (RequestMessage.opaque (peer_message key id envelope)) w h =
      Keeps-IsWired _ w
        (Keeps-then _ _ (Keeps-check_participant now key id) (λ _.
          Keeps-then _ _ (Keeps-read_connection conn) (λ c.
            Keeps-relay key (ResponseMessage.opaque (peer_message c.public_key id envelope)))))
        h

  answer-IsWired :
      (conn : Uuid) (r : Outcome Unit × World H T) → IsWired r.1 → IsWired (answer_error conn r).1
  unfolding answer_error
  answer-IsWired conn (done a, w) h = h
  answer-IsWired conn (failed e, w) h =
      Kept-IsWired w _ h
        (Kept-log_error w (handle_error conn e w) ((Keeps-handle_error conn e).kept w))
  answer-IsWired conn (panicked, w) h = h

  pub answered-IsWired :
      (fresh : Uuid) (now : ℕ) (conn : Uuid) (message : RequestMessage) (w : World H T)
      → IsWired w
      → IsWired (answer_error conn (handle_request fresh now conn message w)).1
  answered-IsWired fresh now conn message w h =
      answer-IsWired conn (handle_request fresh now conn message w)
        (request-IsWired fresh now conn message w h)

module _ {H T : Type 0} where
  Keeps-has_timed_out :
      (start now limit : ℕ) → Keeps (has_timed_out {H = H} {T = T} start now limit)
  unfolding has_timed_out
  Keeps-has_timed_out start now limit = record {
    kept = λ w. elim (Bool-cases (ltb now start)) [
      | inl p ↦ rw (p, has_timed_out) (Kept-refl w)
      | inr p ↦ rw (p, has_timed_out) (Kept-refl w)
    ];
  }

module _ {H T : Type 0} ⦃bin : BinaryStream⦄ ⦃noise : TransportState T⦄ ⦃runtime : Runtime⦄ where
  Keeps-notify :
      (keys : List Bytes) (message : ServerMessage) → Keeps (notify {H = H} {T = T} keys message)
  unfolding notify
  Keeps-notify keys message = record {
    kept = λ w.
        Kept-log_error w (notify_peers keys message w) ((Keeps-notify_peers keys message).kept w);
  }

  notified :
      (keys : List Bytes) (message : ServerMessage) (next : Option Task)
      → Keeps (notify {H = H} {T = T} keys message >> pure next)
  unfolding ◌>>◌
  notified keys message next = Keeps-then _ _ (Keeps-notify keys message) (λ _. Keeps-pure next)

  Keeps-wait :
      (task : Task) (start now : ℕ) (session : SessionState)
      → Keeps (wait_or_time_out {H = H} {T = T} task start now session)
  unfolding wait_or_time_out
  Keeps-wait task start now session = Keeps-then _ _ Keeps-read_state (λ server.
      Keeps-then _ _ (Keeps-has_timed_out start now server.config.session.wait_timeout) late)
    where
      late :
          (b : Bool)
          → Keeps {H = H} {T = T} {A = Option Task} (
              if b
              then (notify session.all_participants (session_timeout session.session_id)
                  >> pure none)
              else pure (some task))
      late true = notified session.all_participants (session_timeout session.session_id) none
      late false = Keeps-pure (some task)

  pub Keeps-poll : (now : ℕ) (task : Task) → Keeps (poll {H = H} {T = T} now task)
  unfolding poll poll_meeting_ready poll_session_ready poll_session_active
  Keeps-poll now (Task.meeting_ready meeting) = Keeps-then _ _ Keeps-read_state (λ server.
      Keeps-lookup (get_meeting meeting.meeting_id server.meetings) _ _ (Keeps-pure none) (λ target.
        Keeps-choice (is_full target) _ _ (notified _ _ none)
          (Keeps-pure (some (Task.meeting_ready meeting)))))
  Keeps-poll now (Task.session_ready start session) = Keeps-then _ _ Keeps-read_state (λ server.
      Keeps-choice (all_present server.active session.all_participants) _ _
        (notified session.all_participants (ServerMessage.session_ready session)
          (some (Task.session_active now session)))
        (Keeps-wait (Task.session_ready start session) start now session))
  Keeps-poll now (Task.session_active start session) = Keeps-then _ _ Keeps-read_state (λ server.
      Keeps-lookup (get_session session.session_id server.sessions) _ _ (Keeps-pure none) (λ kept.
        Keeps-choice (is_active kept) _ _
          (notified session.all_participants (ServerMessage.session_active session) none)
          (Keeps-wait (Task.session_active start session) start now session)))
