-- ===== src/Sessions/Entry.antt =====
-- The methods of `Session` in protocol/src/protocol.rs. Time is a number of milliseconds.
use mpc_sdk_framework.Prelude.{
  ℕ, Bool, true, false, ◌||◌, List, [], ◌∷◌, ◌==◌, nat_eq, list_eq, pair_eq, contains, set_insert,
  if◌then◌else◌,
}
use mpc_sdk_framework.Messages.{Bytes}

pub record Session : Type 0 where
  pub owner_key : Bytes
  pub participant_keys : List Bytes
  pub connections : List (Bytes × Bytes)
  pub last_access : ℕ

unfoldable pub public_keys : Session → List Bytes
public_keys s = s.owner_key ∷ s.participant_keys

unfoldable pub register_connection : Bytes → Bytes → Session → Session
register_connection peer other s = record s { connections = set_insert (peer, other) s.connections }

-- The order in which a connection was established is not known.
unfoldable pub is_connected : List (Bytes × Bytes) → Bytes → Bytes → Bool
is_connected connections peer key =
    contains (peer, key) connections || contains (key, peer) connections

unfoldable pub check_connection : List (Bytes × Bytes) → Bytes → List Bytes → Bool
unfolding is_connected
check_connection connections peer [] = true
check_connection connections peer (key ∷ keys) =
    let rest = check_connection connections peer keys in
    if key == peer then rest else if is_connected connections peer key then rest else false

-- The outer loop of `is_active`, over the participants `keys`.
unfoldable pub all_connected : List (Bytes × Bytes) → List Bytes → List Bytes → Bool
unfolding check_connection
all_connected connections everyone [] = true
all_connected connections everyone (key ∷ keys) =
    let rest = all_connected connections everyone keys in
    if check_connection connections key everyone then rest else false

unfoldable pub is_active : Session → Bool
unfolding all_connected public_keys
is_active s = all_connected s.connections (public_keys s) (public_keys s)
