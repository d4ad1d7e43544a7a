-- ===== src/Sessions/Parties.antt =====
-- Party numbers, public keys and recipients of `SessionState` in protocol/src/protocol.rs.
use mpc_sdk_framework.Prelude.{
  ℕ, zero, suc, ◌+◌, ◌^◌, ◌≤◌, ◌<◌, ◌≡◌, refl, ap, true, false, List, [], ◌∷◌, Option, none, some,
  length, get_elem?, arith, contains, nat_eq, list_eq, ◌==◌, beq→eq, beq_refl, eq_list_iff,
  IsDistinct, ◌&&◌, not, Bool-cases, inl, inr,
}
use mpc_sdk_framework.Messages.{Bytes, SessionState}
use mpc_sdk_framework.Wire.{ok}
use mpc_sdk_framework.Sessions.State.{
  position, number_at, party_number, peer_key_from, peer_key, others, recipients,
}

abbrev pub position_of : Bytes → List Bytes → Option ℕ
position_of key keys = position (λ k. k == key) keys

pub position_some :
    (key : Bytes) (keys : List Bytes)
    → contains key keys ≡ true
    → (i : ℕ) × (position_of key keys ≡ some i) × (i < length keys) × (get_elem? keys i ≡ some key)
unfolding position contains
position_some key [] h = cc
position_some key (k ∷ keys) h = elim (Bool-cases (k == key)) [
  | inl p ↦ (0, rw p, omega arith, ap some (beq→eq k key p))
  | inr p ↦
      let (i, found, bound, here) = position_some key keys (rw p at h) in
      (suc i, rw (p, found), omega arith, here)
]

pub position_none :
    (key : Bytes) (keys : List Bytes) → contains key keys ≡ false → position_of key keys ≡ none
unfolding position contains
position_none key [] h = refl
position_none key (k ∷ keys) h = elim (Bool-cases (k == key)) [
  | inl p ↦ ground arith
  | inr p ↦ ground (arith, position_none key keys)
]

peer_key_from-eq :
    (keys : List Bytes) (index i : ℕ) → peer_key_from index (index + 1 + i) keys ≡ get_elem? keys i
unfolding peer_key_from
peer_key_from-eq [] index i = refl
peer_key_from-eq (k ∷ keys) index zero = ground arith
peer_key_from-eq (k ∷ keys) index (suc i) = ground (arith, peer_key_from-eq keys (index + 1) i)

peer_key-eq : (s : SessionState) (i : ℕ) → peer_key s (i + 1) ≡ get_elem? s.all_participants i
unfolding peer_key
peer_key-eq s i =
    let e : i + 1 ≡ 1 + i = omega arith in rw e (peer_key_from-eq s.all_participants 0 i)

-- With no key twice, a key stands where it is found.
position-get_elem? :
    (keys : List Bytes) (i : ℕ) (key : Bytes)
    → IsDistinct keys
    → get_elem? keys i ≡ some key
    → (position_of key keys ≡ some i) × (contains key keys ≡ true) × (i < length keys)
unfolding position contains
position-get_elem? [] i key d h = cc
position-get_elem? (k ∷ keys) zero key d h = ground (arith, beq_refl k, beq_refl key)
position-get_elem? (k ∷ keys) (suc i) key d h =
    let r = position-get_elem? keys i key d.1 h in ground (arith, r, beq→eq k key)

number_at-eq : (pos : ℕ) → pos + 1 < 2 ^ 16 → number_at (some pos) ≡ ok (some (pos + 1))
unfolding number_at
number_at-eq pos h = ground arith

-- In a session of at most 65535 participants each of them has a party number, from 1 to their number,
-- under which `peer_key` finds it.
pub peer_key-party_number :
    (s : SessionState) (key : Bytes)
    → length s.all_participants < 2 ^ 16
    → contains key s.all_participants ≡ true
    → (n : ℕ) × (party_number s key ≡ ok (some n))
      × (1 ≤ n)
      × (n ≤ length s.all_participants)
      × (peer_key s n ≡ some key)
unfolding party_number
peer_key-party_number s key h c =
    let keys = s.all_participants in
    let (i, found, bound, here) = position_some key keys c in
    (
      i + 1,
      rw found (number_at-eq i (omega arith)),
      omega arith,
      omega arith,
      rw (peer_key-eq s i) here,
    )

-- With no key twice, the party number of the key of a party is that party.
pub party_number-peer_key :
    (s : SessionState) (n : ℕ) (key : Bytes)
    → IsDistinct s.all_participants
    → length s.all_participants < 2 ^ 16
    → 1 ≤ n
    → peer_key s n ≡ some key
    → party_number s key ≡ ok (some n)
unfolding party_number
party_number-peer_key s zero key d h le e = absurd (omega arith)
party_number-peer_key s (suc i) key d h le e =
    let one : suc i ≡ i + 1 = omega arith in
    let r = position-get_elem? s.all_participants i key d (rw (one, peer_key-eq s i) at e) in
    rw (r.0, one) (number_at-eq i (omega (arith, r.2)))

contains-others :
    (key own_key : Bytes) (keys : List Bytes)
    → contains key (others own_key keys) ≡ (contains key keys && not (key == own_key))
unfolding contains others
contains-others key own_key [] = refl
contains-others key own_key (k ∷ keys) = elim (Bool-cases (k == own_key)) [
  | inl p ↦ ground (
    arith,
    p,
    eq_list_iff k key,
    eq_list_iff k own_key,
    eq_list_iff key own_key,
    contains-others key own_key keys,
  )
  | inr p ↦ ground (
    arith,
    p,
    eq_list_iff k key,
    eq_list_iff k own_key,
    eq_list_iff key own_key,
    contains-others key own_key keys,
  )
]

-- The recipients are the participants but the sender.
pub recipients_lem :
    (s : SessionState) (key own_key : Bytes)
    → contains key (recipients s own_key)
      ≡ (contains key s.all_participants && not (key == own_key))
unfolding recipients
recipients_lem s key own_key = contains-others key own_key s.all_participants
