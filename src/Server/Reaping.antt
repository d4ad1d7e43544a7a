-- ===== src/Server/Reaping.antt =====
-- `purge_expired` of server/src/server.rs, against the deadlines of single entries.
use mpc_sdk_framework.Prelude.{
  ℕ, ◌+◌, ◌*◌, ◌%◌, ◌^◌, ◌<◌, ◌≤◌, ◌≡◌, ◌↔◌, ◌⊎◌, inl, inr, refl, false, Option, none, some, IsMap,
  nat_eq, list_eq, ltb, Bool-cases, arith,
}
use mpc_sdk_framework.Messages.{Uuid}
use mpc_sdk_framework.Expiry.{is_expired, unexpired, get-unexpired}
use mpc_sdk_framework.Meetings.{Meeting, get_meeting}
use mpc_sdk_framework.Sessions.{Session, get_session}
use mpc_sdk_framework.Meetings
use mpc_sdk_framework.Sessions
use mpc_sdk_framework.Server.State.{ServerState}
use mpc_sdk_framework.Server.Lifecycle.{purge_expired}

-- The last access of an entry and a timeout in seconds, in milliseconds.
abbrev pub deadline : ℕ → ℕ → ℕ
deadline timeout last_access = last_access + timeout * 1000 % 2 ^ 64

-- A deadline that has not passed, or that the platform cannot represent.
abbrev pub IsLive : ℕ → ℕ → ℕ → Type 0
IsLive latest now time = (now ≤ time) ⊎ (latest < time)

expired-IsLive :
    (latest now timeout last_access : ℕ)
    → is_expired latest now timeout last_access ≡ false
    → IsLive latest now (deadline timeout last_access)
unfolding is_expired
expired-IsLive latest now timeout last_access h =
    elim (Bool-cases (ltb latest (deadline timeout last_access))) [
      | inl past ↦ inr (ground arith)
      | inr representable ↦ inl (ground arith)
    ]

live_unexpired :
    (latest now timeout last_access : ℕ)
    → IsLive latest now (deadline timeout last_access)
    → is_expired latest now timeout last_access ≡ false
unfolding is_expired
live_unexpired latest now timeout last_access (inl h) = ground arith
live_unexpired latest now timeout last_access (inr h) = ground arith

module _ {V : Type 0} (last_access : V → ℕ) (latest now timeout : ℕ) where
  unexpired_iff :
      (o : Option V) (v : V)
      → (unexpired last_access latest now timeout o ≡ some v)
        ↔ ((o ≡ some v) × IsLive latest now (deadline timeout (last_access v)))
  unexpired_iff none v = (λ e. cc e, λ (e, h). cc e)
  unexpired_iff (some w) v = elim (Bool-cases (is_expired latest now timeout (last_access w))) [
    | inl expired ↦ (
      λ e. cc (rw expired at e),
      λ (e, h).
          let same : w ≡ v = cc e in
          let live = live_unexpired latest now timeout (last_access v) h in
          cc (rw (← same) at live),
    )
    | inr live ↦ (
      λ e.
          let same : w ≡ v = cc (rw live at e) in
          (cc same, rw (← same) (expired-IsLive latest now timeout (last_access w) live)),
      λ (e, h). rw live e,
    )
  ]

-- Where no identifier stands twice: reaping leaves a meeting, or a session, under an identifier exactly
-- if it was there and its last access and the timeout are not before the time at which its manager
-- was asked, or past the times that the platform can represent. The active connections stay.
pub purge_expired-exact :
    (latest now later : ℕ) (server : ServerState) (id : Uuid) (meeting : Meeting)
    (session : Session)
    → IsMap server.meetings
    → IsMap server.sessions
    → ((get_meeting id (purge_expired latest now later server).meetings ≡ some meeting) ↔ (
        (get_meeting id server.meetings ≡ some meeting)
        × IsLive latest now (deadline server.config.session.timeout meeting.last_access)))
      × ((get_session id (purge_expired latest now later server).sessions ≡ some session) ↔ (
          (get_session id server.sessions ≡ some session)
          × IsLive latest later (deadline server.config.session.timeout session.last_access)))
      × ((purge_expired latest now later server).active ≡ server.active)
unfolding purge_expired get_meeting get_session Meetings.expired_keys Sessions.expired_keys
purge_expired-exact latest now later server id meeting session hm hs = (
  rw (get-unexpired _ latest now server.config.session.timeout server.meetings id hm)
      (unexpired_iff _ latest now server.config.session.timeout _ meeting),
  rw (get-unexpired _ latest later server.config.session.timeout server.sessions id hs)
      (unexpired_iff _ latest later server.config.session.timeout _ session),
  refl,
)
