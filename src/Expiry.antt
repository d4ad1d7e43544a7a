-- ===== src/Expiry.antt =====
-- Which entries of a manager have expired: the bodies of `MeetingManager::expired_keys` and
-- `SessionManager::expired_keys` of protocol/src/protocol.rs, which differ in the type of the entry
-- alone. Time is a number of milliseconds. `latest` is the last time that the platform can
-- represent, past which `checked_add` fails; the product on `u64` wraps.
use mpc_sdk_framework.Prelude.{
  ℕ, ◌+◌, ◌*◌, ◌%◌, ◌^◌, ◌≡◌, refl, Bool, false, List, [], ◌∷◌, Option, none, some, Map, IsMap, get,
  remove, contains, ltb, nat_eq, list_eq, eq_list_iff, get-remove, arith, if◌then◌else◌,
}
use mpc_sdk_framework.Messages.{Uuid}

-- `last_access` plus a timeout in seconds lies before `now`.
unfoldable pub is_expired : ℕ → ℕ → ℕ → ℕ → Bool
is_expired latest now timeout last_access =
    let current : ℕ = last_access + timeout * 1000 % 2 ^ 64 in
    if ltb latest current then false else ltb current now

module _ {V : Type 0} (last_access : V → ℕ) (latest now timeout : ℕ) where
  unfoldable pub expired_entries : Map Uuid V → List Uuid
  expired_entries [] = []
  expired_entries ((id, v) ∷ m) =
      let rest = expired_entries m in
      if is_expired latest now timeout (last_access v) then id ∷ rest else rest

-- The loop that removes the keys of a list.
unfoldable pub remove_each : {V : Type 0} → List Uuid → Map Uuid V → Map Uuid V
remove_each [] m = m
remove_each (id ∷ ids) m = remove_each ids (remove id m)

pub get-remove_each :
    {V : Type 0} (ids : List Uuid) (m : Map Uuid V) (id : Uuid)
    → get id (remove_each ids m) ≡ (if contains id ids then none else get id m)
unfolding remove_each contains
get-remove_each [] m id = refl
get-remove_each (i ∷ ids) m id =
    ground (arith, get-remove_each ids (remove i m) id, get-remove i id m)

module _ {V : Type 0} (last_access : V → ℕ) (latest now timeout : ℕ) where
  -- The entry stays unless it has expired.
  abbrev pub unexpired : Option V → Option V
  unexpired none = none
  unexpired (some v) = if is_expired latest now timeout (last_access v) then none else some v

  absent :
      (m : Map Uuid V) (id : Uuid)
      → get id m ≡ none
      → contains id (expired_entries last_access latest now timeout m) ≡ false
  unfolding expired_entries get contains
  absent [] id h = refl
  absent ((i, v) ∷ m) id h = ground (arith, absent m id)

  present :
      (m : Map Uuid V) (id : Uuid)
      → IsMap m
      → (if contains id (expired_entries last_access latest now timeout m) then none else get id m)
        ≡ unexpired (get id m)
  unfolding expired_entries get contains
  present [] id h = refl
  present ((i, v) ∷ m) id h = ground (arith, eq_list_iff i id, absent m id, present m id, h.0)

  -- Removing the expired keys removes the expired entries and no other.
  pub get-unexpired :
      (m : Map Uuid V) (id : Uuid)
      → IsMap m
      → get id (remove_each (expired_entries last_access latest now timeout m) m)
        ≡ unexpired (get id m)
  get-unexpired m id h =
      rw (get-remove_each (expired_entries last_access latest now timeout m) m id) (present m id h)
