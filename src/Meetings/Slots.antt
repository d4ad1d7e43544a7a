-- ===== src/Meetings/Slots.antt =====
-- When a meeting point is full: the methods of `Meeting` of protocol/src/protocol.rs, over a
-- meeting's life.
use mpc_sdk_framework.Prelude.{
  ℕ, ◌≡◌, ◌≢◌, ◌↔◌, refl, Bool, true, false, ◌||◌, List, [], ◌∷◌, Option, none, some, Map, get,
  IsMap, insert-IsMap, get-insert, contains, IsDistinct, nat_eq, list_eq, ◌==◌, eq_list_iff, arith,
  Bool-cases, inl, inr, beq_refl,
}
use mpc_sdk_framework.Messages.{Bytes, UserId}
use mpc_sdk_framework.Meetings.Defs.{Meeting, join, all_filled, is_full, empty_slots, open_meeting}

-- Joins one after another, each a user, a key and the time.
unfoldable pub join_all : List (UserId × Bytes × ℕ) → Meeting → Meeting
unfolding join
join_all [] m = m
join_all ((user, key, now) ∷ joins) m = join_all joins (join user key now m)

unfoldable pub has_joined : UserId → List (UserId × Bytes × ℕ) → Bool
has_joined user [] = false
has_joined user ((u, key, now) ∷ joins) = u == user || has_joined user joins

-- A full meeting has no slot that waits, where no user stands twice.
no_waiting :
    (slots : Map UserId (Option Bytes))
    → all_filled slots ≡ true
    → (user : UserId) → get user slots ≢ some none
unfolding all_filled get
no_waiting [] h user e = cc e
no_waiting ((u, none) ∷ slots) h user e = cc h
no_waiting ((u, some key) ∷ slots) h user e = elim (Bool-cases (u == user)) [
  | inl p ↦ cc (rw p at e)
  | inr p ↦ no_waiting slots h user (rw p at e)
]

filled :
    (slots : Map UserId (Option Bytes))
    → IsMap slots
    → ((user : UserId) → get user slots ≢ some none)
    → all_filled slots ≡ true
unfolding all_filled get
filled [] h f = refl
filled ((u, none) ∷ slots) h f = absurd (f u (rw (beq_refl u) refl))
filled ((u, some key) ∷ slots) h f =
    filled slots h.1 (λ user e. f user (ground (arith, eq_list_iff u user, h.0, e)))

-- Who waits after a number of joins.
waiting :
    (joins : List (UserId × Bytes × ℕ)) (m : Meeting) (user : UserId)
    → (get user (join_all joins m).slots ≡ some none)
      ↔ ((get user m.slots ≡ some none) × (has_joined user joins ≡ false))
unfolding join_all has_joined join
waiting [] m user = ground arith
waiting ((u, key, now) ∷ joins) m user =
    ground (arith, waiting joins (join u key now m) user, get-insert u user (some key) m.slots)

joins-IsMap :
    (joins : List (UserId × Bytes × ℕ)) (m : Meeting)
    → IsMap m.slots
    → IsMap (join_all joins m).slots
unfolding join_all join
joins-IsMap [] m h = h
joins-IsMap ((u, key, now) ∷ joins) m h =
    joins-IsMap joins (join u key now m) (insert-IsMap u (some key) m.slots h)

empty_waiting :
    (slots : List UserId) (user : UserId)
    → (get user (empty_slots slots) ≡ some none) ↔ (contains user slots ≡ true)
unfolding empty_slots get contains
empty_waiting [] user = ground arith
empty_waiting (u ∷ slots) user = ground (arith, empty_waiting slots user)

empty-IsMap : (slots : List UserId) → IsDistinct slots → IsMap (empty_slots slots)
unfolding empty_slots get contains
empty-IsMap [] h = tt
empty-IsMap (u ∷ slots) h = (absent slots h.0, empty-IsMap slots h.1)
  where
    absent : (ids : List UserId) → contains u ids ≡ false → get u (empty_slots ids) ≡ none
    absent [] h = refl
    absent (i ∷ ids) h = ground (arith, absent ids)

-- A meeting that an owner opens for a set of users is full, after any sequence of joins, exactly
-- when each of these users is the owner or has joined; who else has joined does not matter.
pub is_full_iff :
    (slots : List UserId) (owner : UserId) (key : Bytes) (now : ℕ)
    (joins : List (UserId × Bytes × ℕ))
    → IsDistinct slots
    → (is_full (join_all joins (open_meeting now key owner slots)) ≡ true) ↔ (
        (user : UserId)
        → contains user slots ≡ true
        → (owner == user || has_joined user joins) ≡ true)
unfolding is_full open_meeting join has_joined join_all
is_full_iff slots owner key now joins h =
    let opened : Meeting = record { slots = empty_slots slots; last_access = now } in
    let everyone : List (UserId × Bytes × ℕ) = (owner, key, now) ∷ joins in
    (
      (λ e user c.
          let no : get user (join_all everyone opened).slots ≢ some none =
            no_waiting (join_all everyone opened).slots e user in
          ground (arith, waiting everyone opened user, empty_waiting slots user, no, c)),
      (λ f.
          filled (join_all everyone opened).slots
            (joins-IsMap everyone opened (empty-IsMap slots h))
            (λ user e.
              ground (arith, waiting everyone opened user, empty_waiting slots user, e, f user))),
    )
