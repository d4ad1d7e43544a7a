-- ===== src/Driver/State.antt =====
-- The messages of a round, of driver/src/round.rs, the errors of driver/src/error.rs and
-- driver/src/gg20/error.rs, and the trait `ProtocolDriver` of driver/src/lib.rs. Round and party
-- numbers are `NonZeroU16`, which `non_zero` makes of a `u16`.
use mpc_sdk_framework.Prelude.{
  ℕ, Bool, true, false, List, [], ◌∷◌, Option, none, some, nat_eq, ◌==◌, if◌then◌else◌,
}
use mpc_sdk_framework.Messages.{Bytes}
use mpc_sdk_framework.Actions.{Outcome, Action}
use mpc_sdk_framework.Client

-- Both libraries' errors; each wraps the other's.
pub data Error : Type 0 where
  session_id_mismatch session_id_required : Error
  not_session_participant : Bytes → Error
  local_key_not_participant verify_signature keygen sign_offline sign_manual : Error
  client : Client.State.Error → Error

-- `Msg` of the crate `round_based`.
pub record Msg (B : Type 0) : Type 0 where
  pub sender : ℕ
  pub receiver : Option ℕ
  pub body : B

pub record RoundMsg (B : Type 0) : Type 0 where
  pub round : ℕ
  pub sender : ℕ
  pub receiver : Option ℕ
  pub body : B

-- `NonZeroU16::new`.
unfoldable pub non_zero : ℕ → Option ℕ
non_zero n = if n == 0 then none else some n

module _ {B : Type 0} where
  unfoldable pub is_broadcast : RoundMsg B → Bool
  is_broadcast m = elim m.receiver [ none ↦ true | some party ↦ false ]

  unfoldable pub to_msg : RoundMsg B → Msg B
  to_msg m = record { sender = m.sender; receiver = m.receiver; body = m.body }

infixl 5 ◌>>=◌
abbrev ◌>>=◌ : {A B : Type 0} → Option A → (A → Option B) → Option B
none >>= f = none
some a >>= f = f a

-- `none` is an `unwrap` of a number that is zero.
unfoldable pub round_receiver : Option ℕ → Option (Option ℕ)
unfolding non_zero
round_receiver none = some none
round_receiver (some n) = do party ← non_zero n; some (some party)

module _ {B : Type 0} where
  unfoldable pub round_msg : ℕ → Msg B → Option (RoundMsg B)
  unfolding non_zero round_receiver
  round_msg round m = do
    number ← non_zero round
    sender ← non_zero m.sender
    receiver ← round_receiver m.receiver
    some (record { round = number; sender = sender; receiver = receiver; body = m.body })

  unfoldable pub from_round : ℕ → List (Msg B) → Option (List (RoundMsg B))
  unfolding round_msg
  from_round round [] = some []
  from_round round (m ∷ ms) = do
    message ← round_msg round m
    messages ← from_round round ms
    some (message ∷ messages)

-- `serde_json` on the messages of a round; `none` is its error.
pub record Serde (B : Type 0) : Type 0 where
  pub to_vec : RoundMsg B → Option Bytes
  pub from_slice : Bytes → Option (RoundMsg B)

-- Every driver takes `Msg<B>` in and gives `RoundMsg<B>` out. What `finish` does to a driver that it
-- consumes is left out.
pub record ProtocolDriver (D B Output : Type 0) : Type 0 where
  pub handle_incoming : Msg B → Action D Error Unit
  pub proceed : Action D Error (List (RoundMsg B))
  pub finish : D → Outcome Error Output
