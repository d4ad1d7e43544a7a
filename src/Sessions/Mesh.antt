-- ===== src/Sessions/Mesh.antt =====
-- `SessionState::connections` of protocol/src/protocol.rs, over all participants of a session.
use mpc_sdk_framework.Prelude.{
  ℕ, zero, suc, ◌+◌, ◌≤◌, ◌≡◌, ◌≢◌, refl, true, false, not, ◌||◌, List, [], ◌∷◌, Option, none, some,
  length, drop, arith, contains, nat_eq, list_eq, eq_list_iff, ◌==◌, if◌then◌else◌, IsDistinct,
}
use mpc_sdk_framework.Messages.{Bytes, SessionState}
use mpc_sdk_framework.Sessions.State.{position, connections_after, connections}
use mpc_sdk_framework.Sessions.Parties.{position_of}

-- What stands behind the first `key`.
behind : Bytes → List Bytes → List Bytes
behind key [] = []
behind key (k ∷ keys) = if k == key then keys else behind key keys

drop_at : Option ℕ → List Bytes → List Bytes
drop_at none keys = []
drop_at (some i) keys = drop (suc i) keys

drop_at-position :
    (key : Bytes) (keys : List Bytes) → drop_at (position_of key keys) keys ≡ behind key keys
unfolding behind position drop_at
drop_at-position key [] = refl
drop_at-position key (k ∷ keys) = ground (arith, drop_at-position key keys)

drop_all : (keys : List Bytes) (n : ℕ) → length keys ≤ n → drop n keys ≡ []
drop_all [] zero h = refl
drop_all [] (suc n) h = refl
drop_all (k ∷ keys) zero h = absurd (omega arith)
drop_all (k ∷ keys) (suc n) h = drop_all keys n (omega arith)

connections_after-eq :
    (keys : List Bytes) (o : Option ℕ) → connections_after keys o ≡ drop_at o keys
unfolding connections_after drop_at
connections_after-eq keys none = refl
connections_after-eq keys (some i) =
    let one : i + 1 ≡ suc i = omega arith in rw one (ground (arith, drop_all keys (suc i)))

-- The connections of a participant are the participants behind it.
connections-behind :
    (s : SessionState) (key : Bytes) → connections s key ≡ behind key s.all_participants
unfolding connections
connections-behind s key = ground (
  arith,
  connections_after-eq s.all_participants (position_of key s.all_participants),
  drop_at-position key s.all_participants,
)

-- Of two participants one stands behind the other.
behind_some :
    (a b : Bytes) (keys : List Bytes)
    → a ≢ b
    → contains a keys ≡ true
    → contains b keys ≡ true
    → (contains b (behind a keys) || contains a (behind b keys)) ≡ true
unfolding behind contains
behind_some a b [] ne ha hb = cc
behind_some a b (k ∷ keys) ne ha hb =
    ground (arith, eq_list_iff k a, eq_list_iff k b, behind_some a b keys)

contains-behind :
    (a b : Bytes) (keys : List Bytes) → contains b (behind a keys) ≡ true → contains b keys ≡ true
unfolding behind contains
contains-behind a b [] h = h
contains-behind a b (k ∷ keys) h = ground (arith, contains-behind a b keys)

-- With no key twice only one of them does.
behind_one :
    (a b : Bytes) (keys : List Bytes)
    → a ≢ b
    → IsDistinct keys
    → contains b (behind a keys) ≡ true
    → contains a (behind b keys) ≡ false
unfolding behind contains
behind_one a b [] ne d h = refl
behind_one a b (k ∷ keys) ne d h = ground (
  arith,
  eq_list_iff k a,
  eq_list_iff k b,
  behind_one a b keys,
  contains-behind a b keys,
  contains-behind b a keys,
)

-- Of any two participants of a session with no key twice exactly one is told to connect to the other.
pub connections_once :
    (s : SessionState) (a b : Bytes)
    → IsDistinct s.all_participants
    → a ≢ b
    → contains a s.all_participants ≡ true
    → contains b s.all_participants ≡ true
    → contains b (connections s a) ≡ not (contains a (connections s b))
connections_once s a b d ne ha hb =
    rw (connections-behind s a, connections-behind s b)
      (ground (arith, behind_some a b s.all_participants, behind_one a b s.all_participants))

-- Also with keys given twice, of two participants one is told to connect to the other.
pub connections_some :
    (s : SessionState) (a b : Bytes)
    → a ≢ b
    → contains a s.all_participants ≡ true
    → contains b s.all_participants ≡ true
    → (contains b (connections s a) || contains a (connections s b)) ≡ true
connections_some s a b ne ha hb =
    rw (connections-behind s a, connections-behind s b)
      (behind_some a b s.all_participants ne ha hb)
