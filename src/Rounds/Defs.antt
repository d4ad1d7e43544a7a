-- ===== src/Rounds/Defs.antt =====
-- `RoundBuffer` of driver/src/round.rs. A round number is a `NonZeroU16`.
use mpc_sdk_framework.Prelude.{
  ℕ, zero, suc, ◌+◌, Bool, false, List, [], ◌∷◌, ◌++◌, Option, none, some, Map, get, insert, remove,
  nat_eq, length, ◌==◌,
}

pub record RoundBuffer (I : Type 0) : Type 0 where
  pub expected : Map ℕ ℕ
  pub messages : Map ℕ (List I)

-- The loop of `new_fixed`, over the numbers below the first argument.
unfoldable pub expected_rounds : ℕ → ℕ → Map ℕ ℕ
expected_rounds zero messages_per_round = []
expected_rounds (suc i) messages_per_round =
    insert (i + 1) messages_per_round (expected_rounds i messages_per_round)

unfoldable pub new_fixed : {I : Type 0} → ℕ → ℕ → RoundBuffer I
unfolding expected_rounds
new_fixed rounds messages_per_round = record {
  expected = expected_rounds rounds messages_per_round;
  messages = [];
}

module _ {I : Type 0} where
  -- The number of rounds.
  unfoldable pub len : RoundBuffer I → ℕ
  len b = length b.expected

  unfoldable pub or_empty : Option (List I) → List I
  or_empty none = []
  or_empty (some messages) = messages

  unfoldable pub add_message : ℕ → I → RoundBuffer I → RoundBuffer I
  unfolding or_empty
  add_message round message b = record b {
    messages = insert round (or_empty (get round b.messages) ++ message ∷ []) b.messages;
  }

  unfoldable pub has_amount : Option ℕ → Option (List I) → Bool
  has_amount (some amount) (some messages) = length messages == amount
  has_amount (some amount) none = false
  has_amount none messages = false

  unfoldable pub is_ready : ℕ → RoundBuffer I → Bool
  unfolding has_amount
  is_ready round b = has_amount (get round b.expected) (get round b.messages)

  unfoldable pub take_round : ℕ → RoundBuffer I → List I × RoundBuffer I
  unfolding or_empty
  take_round round b =
      (or_empty (get round b.messages), record b { messages = remove round b.messages })
