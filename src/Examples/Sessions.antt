-- ===== src/Examples/Sessions.antt =====
-- A session of three parties, and a meeting point of two, as in protocol/src/protocol.rs.
use mpc_sdk_framework.Prelude.{
  ℕ, ◌≤◌, ◌≡◌, ◌≢◌, ◌↔◌, refl, true, not, ◌||◌, [], ◌∷◌, some, contains, set_of, set_insert, nat_eq,
  list_eq, pair_eq, ◌==◌, arith, eq_list_iff, eq_list, pair_beq,
}
use mpc_sdk_framework.Messages.{Bytes, SessionState, UserId}
use mpc_sdk_framework.Wire.{ok}
use mpc_sdk_framework.Sessions.{
  Session, party_number, peer_key, connections, is_active, public_keys, is_connected,
}
use mpc_sdk_framework.Sessions.Parties.{peer_key-party_number, party_number-peer_key}
use mpc_sdk_framework.Sessions.Mesh.{connections_once}
use mpc_sdk_framework.Sessions.Active.{is_active_iff, is_active_registered}
use mpc_sdk_framework.Meetings.{is_full, open_meeting}
use mpc_sdk_framework.Meetings.Slots.{join_all, has_joined, is_full_iff}

abbrev one : Bytes
one = 1 ∷ []

abbrev two : Bytes
two = 2 ∷ []

abbrev three : Bytes
three = 3 ∷ []

abbrev state : SessionState
state = record { session_id = []; all_participants = one ∷ two ∷ three ∷ [] }

-- The first party owns the session, and the connections of the mesh are registered.
abbrev session : Session
session = record {
  owner_key = one;
  participant_keys = two ∷ three ∷ [];
  connections = (one, two) ∷ (one, three) ∷ (two, three) ∷ [];
  last_access = 0;
}

peer_key-party_number_example :
    (n : ℕ) × (party_number state two ≡ ok (some n))
    × (1 ≤ n)
    × (n ≤ 3)
    × (peer_key state n ≡ some two)
unfolding contains eq_list
peer_key-party_number_example = peer_key-party_number state two (omega arith) refl

party_number-peer_key_example : party_number state three ≡ ok (some 3)
unfolding contains eq_list peer_key
party_number-peer_key_example =
    party_number-peer_key state 3 three (refl, (refl, (refl, tt))) (omega arith) (omega arith) refl

connections_once_example :
    contains three (connections state two) ≡ not (contains two (connections state three))
unfolding contains eq_list
connections_once_example =
    connections_once state two three (refl, (refl, (refl, tt))) (λ e. cc e) refl refl

is_active_iff_example : (is_active session ≡ true) ↔ (
    (a b : Bytes)
    → contains a (public_keys session) ≡ true
    → contains b (public_keys session) ≡ true
    → b ≢ a
    → is_connected session.connections a b ≡ true)
is_active_iff_example = is_active_iff session

-- Whoever is told to connect to a party has registered it.
registered :
    (a b : Bytes)
    → contains a state.all_participants ≡ true
    → contains b (connections state a) ≡ true
    → contains (a, b) session.connections ≡ true
unfolding contains connections pair_beq
registered a b ca cb = ground (
  arith,
  eq_list_iff one a,
  eq_list_iff two a,
  eq_list_iff three a,
  eq_list_iff one b,
  eq_list_iff two b,
  eq_list_iff three b,
)

is_active_registered_example : is_active session ≡ true
unfolding set_of eq_list set_insert contains
is_active_registered_example =
    is_active_registered session state (two ∷ three ∷ []) refl refl registered

is_full_iff_example :
    (is_full (join_all ((two, 8 ∷ [], 1) ∷ []) (open_meeting 0 (7 ∷ []) one (one ∷ two ∷ [])))
      ≡ true)
    ↔ ((user : UserId)
        → contains user (one ∷ two ∷ []) ≡ true
        → (one == user || has_joined user ((two, 8 ∷ [], 1) ∷ [])) ≡ true)
unfolding contains eq_list
is_full_iff_example =
    is_full_iff (one ∷ two ∷ []) one (7 ∷ []) 0 ((two, 8 ∷ [], 1) ∷ []) (refl, (refl, tt))
