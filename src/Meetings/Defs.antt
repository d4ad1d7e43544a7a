-- ===== src/Meetings/Defs.antt =====
-- The methods of `Meeting` and `MeetingManager` in protocol/src/protocol.rs. Time, in milliseconds,
-- and a fresh identifier are arguments.
use mpc_sdk_framework.Prelude.{
  ℕ, Bool, true, false, List, [], ◌∷◌, Option, none, some, Map, get, insert, remove, nat_eq,
  list_eq,
}
use mpc_sdk_framework.Messages.{Bytes, UserId, MeetingId}
use mpc_sdk_framework.Expiry.{expired_entries}

pub record Meeting : Type 0 where
  pub slots : Map UserId (Option Bytes)
  pub last_access : ℕ

unfoldable pub join : UserId → Bytes → ℕ → Meeting → Meeting
join user_id public_key now m = record m {
  slots = insert user_id (some public_key) m.slots;
  last_access = now;
}

unfoldable pub all_filled : Map UserId (Option Bytes) → Bool
all_filled [] = true
all_filled ((id, none) ∷ slots) = false
all_filled ((id, some key) ∷ slots) = all_filled slots

unfoldable pub is_full : Meeting → Bool
unfolding all_filled
is_full m = all_filled m.slots

unfoldable pub filled_keys : Map UserId (Option Bytes) → List Bytes
filled_keys [] = []
filled_keys ((id, none) ∷ slots) = filled_keys slots
filled_keys ((id, some key) ∷ slots) = key ∷ filled_keys slots

unfoldable pub participants : Meeting → List Bytes
unfolding filled_keys
participants m = filled_keys m.slots

abbrev pub Meetings : Type 0
Meetings = Map MeetingId Meeting

-- `slots.into_iter().map(|id| (id, None)).collect()`.
unfoldable pub empty_slots : List UserId → Map UserId (Option Bytes)
empty_slots [] = []
empty_slots (id ∷ ids) = (id, none) ∷ empty_slots ids

unfoldable pub open_meeting : ℕ → Bytes → UserId → List UserId → Meeting
unfolding join empty_slots
open_meeting now owner_key owner_id slots =
    join owner_id owner_key now (record { slots = empty_slots slots; last_access = now })

unfoldable pub new_meeting : MeetingId → ℕ → Bytes → UserId → List UserId → Meetings → Meetings
unfolding open_meeting
new_meeting meeting_id now owner_key owner_id slots meetings =
    insert meeting_id (open_meeting now owner_key owner_id slots) meetings

unfoldable pub remove_meeting : MeetingId → Meetings → Meetings
remove_meeting = remove

unfoldable pub get_meeting : MeetingId → Meetings → Option Meeting
get_meeting = get

unfoldable pub expired_keys : ℕ → ℕ → ℕ → Meetings → List MeetingId
unfolding expired_entries
expired_keys latest now timeout meetings =
    expired_entries (λ (m : Meeting). m.last_access) latest now timeout meetings
