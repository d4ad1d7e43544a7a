-- ===== src/Driver/Gg20/Participants.antt =====
-- `ParticipantProtocolDriver` of driver/src/gg20/sign.rs.
use mpc_sdk_framework.Prelude.{ℕ, List, [], ◌∷◌, ◌++◌, none, leb, nat_eq, if◌then◌else◌}
use mpc_sdk_framework.Sessions.{party_number}
use mpc_sdk_framework.Actions.{Outcome, done, Action, unwrap}
use mpc_sdk_framework.Driver.State.{Error, Msg, RoundMsg, from_round, ProtocolDriver}

-- `slice::sort`, on numbers.
unfoldable pub sorted_insert : ℕ → List ℕ → List ℕ
sorted_insert n [] = n ∷ []
sorted_insert n (m ∷ ms) = let rest = sorted_insert n ms in if leb n m then n ∷ m ∷ ms else m ∷ rest

unfoldable pub sort : List ℕ → List ℕ
unfolding sorted_insert
sort [] = []
sort (n ∷ ns) = sorted_insert n (sort ns)

-- `ParticipantProtocolDriver`.
pub record ParticipantProtocolDriver : Type 0 where
  pub party_number : ℕ
  pub participants : List ℕ
  pub local_key_index : ℕ

unfoldable pub new_participant : ℕ → ℕ → ParticipantProtocolDriver
new_participant party_number local_key_index = record {
  party_number = party_number;
  participants = local_key_index ∷ [];
  local_key_index = local_key_index;
}

unfoldable pub participant_incoming : Msg ℕ → Action ParticipantProtocolDriver Error Unit
participant_incoming message d =
    (done tt, record d { participants = d.participants ++ message.body ∷ [] })

unfoldable pub participant_proceed : Action ParticipantProtocolDriver Error (List (RoundMsg ℕ))
unfolding from_round unwrap
participant_proceed d =
    unwrap
      (from_round 1
        (record { sender = d.party_number; receiver = none; body = d.local_key_index } ∷ []))
      d

unfoldable pub participant_finish : ParticipantProtocolDriver → Outcome Error (List ℕ)
unfolding sort
participant_finish d = done (sort d.participants)

abbrev pub participant_driver : ProtocolDriver ParticipantProtocolDriver ℕ (List ℕ)
participant_driver = record {
  handle_incoming = participant_incoming;
  proceed = participant_proceed;
  finish = participant_finish;
}
