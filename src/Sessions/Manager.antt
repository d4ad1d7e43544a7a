-- ===== src/Sessions/Manager.antt =====
-- The methods of `SessionManager` in protocol/src/protocol.rs. A fresh identifier and the time are
-- arguments: `new_v4` and `SystemTime::now` are not of this program.
use mpc_sdk_framework.Prelude.{
  ℕ, List, [], Option, none, some, Map, get, insert, remove, set_of, nat_eq, list_eq,
}
use mpc_sdk_framework.Messages.{Bytes, SessionId}
use mpc_sdk_framework.Expiry.{expired_entries}
use mpc_sdk_framework.Sessions.Entry.{Session}

abbrev pub Sessions : Type 0
Sessions = Map SessionId Session

unfoldable pub new_session : SessionId → ℕ → Bytes → List Bytes → Sessions → Sessions
new_session session_id now owner_key participant_keys sessions =
    insert session_id
      (record {
        owner_key = owner_key;
        participant_keys = set_of [] participant_keys;
        connections = [];
        last_access = now;
      })
      sessions

unfoldable pub get_session : SessionId → Sessions → Option Session
get_session = get

-- What a caller does through `get_session_mut`.
unfoldable pub update_session : SessionId → (Session → Session) → Sessions → Sessions
update_session id f sessions = elim (get id sessions) [
  | none ↦ sessions
  | some session ↦ insert id (f session) sessions
]

unfoldable pub remove_session : SessionId → Sessions → Sessions
remove_session = remove

unfoldable pub touch_session : SessionId → ℕ → Sessions → Option Session × Sessions
touch_session id now sessions = elim (get id sessions) [
  | none ↦ (none, sessions)
  | some session ↦
      let touched : Session = record session { last_access = now } in
      (some touched, insert id touched sessions)
]

unfoldable pub expired_keys : ℕ → ℕ → ℕ → Sessions → List SessionId
unfolding expired_entries
expired_keys latest now timeout sessions =
    expired_entries (λ (s : Session). s.last_access) latest now timeout sessions
