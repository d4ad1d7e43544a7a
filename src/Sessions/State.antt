-- ===== src/Sessions/State.antt =====
-- The methods of `SessionState` in protocol/src/protocol.rs.
use mpc_sdk_framework.Prelude.{
  ℕ, suc, ◌+◌, ◌-◌, ◌%◌, ◌^◌, Bool, List, [], ◌∷◌, Option, none, some, length, drop, not, ltb,
  nat_eq, list_eq, ◌==◌, if◌then◌else◌,
}
use mpc_sdk_framework.Messages.{Bytes, SessionState}
use mpc_sdk_framework.Wire.{Result, ok, err, panic}

-- `Iterator::position`.
unfoldable pub position : (Bytes → Bool) → List Bytes → Option ℕ
position p [] = none
position p (k ∷ keys) =
    if p k then some 0 else elim (position p keys) [ none ↦ none | some i ↦ some (suc i) ]

-- `NonZeroU16::new(n as u16).unwrap()`.
unfoldable pub non_zero_u16 : ℕ → Result ℕ
non_zero_u16 n = if n % 2 ^ 16 == 0 then panic else ok (n % 2 ^ 16)

unfoldable pub number_at : Option ℕ → Result (Option ℕ)
unfolding non_zero_u16
number_at none = ok none
number_at (some pos) = elim (non_zero_u16 (pos + 1)) [
  | ok n ↦ ok (some n)
  | err e ↦ err e
  | panic ↦ panic
]

unfoldable pub party_number : SessionState → Bytes → Result (Option ℕ)
unfolding number_at position
party_number s public_key = number_at (position (λ k. k == public_key) s.all_participants)

-- The loop of `peer_key`, from an index on.
unfoldable pub peer_key_from : ℕ → ℕ → List Bytes → Option Bytes
peer_key_from index party_number [] = none
peer_key_from index party_number (key ∷ keys) =
    if index + 1 == party_number then some key else peer_key_from (index + 1) party_number keys

unfoldable pub peer_key : SessionState → ℕ → Option Bytes
unfolding peer_key_from
peer_key s party_number = peer_key_from 0 party_number s.all_participants

unfoldable pub connections_after : List Bytes → Option ℕ → List Bytes
connections_after keys none = []
connections_after keys (some pos) = if ltb pos (length keys - 1) then drop (pos + 1) keys else []

-- The connections that a peer should make: to the participants behind it.
unfoldable pub connections : SessionState → Bytes → List Bytes
unfolding connections_after position
connections s own_key = elim s.all_participants [
  | [] ↦ []
  | k ∷ keys ↦ connections_after (k ∷ keys) (position (λ k. k == own_key) (k ∷ keys))
]

unfoldable pub others : Bytes → List Bytes → List Bytes
others own_key [] = []
others own_key (k ∷ keys) =
    let rest = others own_key keys in if not (k == own_key) then k ∷ rest else rest

-- The recipients of a broadcast.
unfoldable pub recipients : SessionState → Bytes → List Bytes
unfolding others
recipients s own_key = others own_key s.all_participants
