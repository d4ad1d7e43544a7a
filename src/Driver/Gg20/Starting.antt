-- ===== src/Driver/Gg20/Starting.antt =====
-- How the drivers of driver/src/gg20/keygen.rs and driver/src/gg20/sign.rs start.
use mpc_sdk_framework.Prelude.{
  ℕ, ◌+◌, ◌-◌, ◌%◌, ◌^◌, List, [], ◌∷◌, Option, none, some, nat_eq, ◌==◌, if◌then◌else◌,
}
use mpc_sdk_framework.Messages.{Bytes, SessionState}
use mpc_sdk_framework.Wire.{ok}
use mpc_sdk_framework.Sessions.{party_number}
use mpc_sdk_framework.Rounds.{RoundBuffer, new_fixed}
use mpc_sdk_framework.Actions.{Outcome, done, failed, panicked, waiting}
use mpc_sdk_framework.Client.State.{Client}
use mpc_sdk_framework.Client.Calls.{public_key}
use mpc_sdk_framework.Driver.State.{
  Error, not_session_participant, local_key_not_participant, keygen, sign_offline, Msg,
}
use mpc_sdk_framework.Driver.Bridge.{Bridge}
use mpc_sdk_framework.Driver.Gg20.Participants.{ParticipantProtocolDriver, new_participant}
use mpc_sdk_framework.Driver.Gg20.Online.{Signing, SignOnlineDriver, new_online}

-- `Parameters` of protocol/src/protocol.rs, two `u16`.
pub record Parameters : Type 0 where
  pub parties : ℕ
  pub threshold : ℕ

unfoldable pub default_parameters : Parameters
default_parameters = record { parties = 3; threshold = 1 }

-- The number of the party with a key.
unfoldable pub party_of : SessionState → Bytes → Outcome Error ℕ
unfolding party_number
party_of session key = elim (party_number session key) [
  | ok (some number) ↦ done number
  | ok none ↦ failed (not_session_participant key)
  | _ ↦ panicked
]

-- `?` on an outcome.
unfoldable pub outcome_then :
    {A B : Type 0} → Outcome Error A → (A → Outcome Error B) → Outcome Error B
outcome_then (done a) k = k a
outcome_then (failed e) k = failed e
outcome_then panicked k = panicked
outcome_then waiting k = waiting

module _ {H T : Type 0} where
  abbrev new_bridge :
      {D B : Type 0} → Client H T → RoundBuffer (Msg B) → D → SessionState → Bridge H T D B
  new_bridge transport buffer driver session = record {
    transport = transport;
    buffer = buffer;
    driver = some driver;
    session = session;
  }

  -- `ParticipantDriver::new`.
  unfoldable pub new_participant_bridge :
      Client H T
      → Parameters
      → SessionState
      → ℕ
      → Outcome Error (Bridge H T ParticipantProtocolDriver ℕ)
  unfolding new_fixed public_key party_of outcome_then new_participant
  new_participant_bridge transport parameters session local_key_index =
      outcome_then (party_of session (public_key transport)) λ number. done (
        new_bridge transport (new_fixed 1 parameters.threshold)
          (new_participant number local_key_index) session)

  -- `KeyGenDriver::new`, where `new_keygen` is `Keygen::new` of the party, the threshold and the
  -- number of parties. The number of other parties wraps below zero, as in a release build.
  unfoldable pub new_keygen_bridge :
      {M B : Type 0}
      → (ℕ → ℕ → ℕ → Option M)
      → Client H T
      → Parameters
      → SessionState
      → Outcome Error (Bridge H T M B)
  unfolding new_fixed public_key party_of outcome_then
  new_keygen_bridge new_keygen transport parameters session =
      outcome_then (party_of session (public_key transport)) λ number.
        elim (new_keygen number parameters.threshold parameters.parties) [
          | none ↦ failed keygen
          | some machine ↦ done (
              new_bridge transport (new_fixed 4 ((parameters.parties + (2 ^ 16 - 1)) % 2 ^ 16))
                machine session)
        ]

-- The position of a key share among the participants, from a position on.
unfoldable pub index_from : ℕ → ℕ → List ℕ → Option ℕ
index_from position i [] = none
index_from position i (j ∷ js) = if j == i then some position else index_from (position + 1) i js

module _ {H T : Type 0} where
  -- `PreSignDriver::new`, where `new_offline` is `OfflineStage::new` of the index and the participants
  -- with the local key, whose number is `i`.
  unfoldable pub new_presign_bridge :
      {M B : Type 0}
      → (ℕ → List ℕ → Option M)
      → Client H T
      → Parameters
      → SessionState
      → ℕ
      → List ℕ
      → Outcome Error (Bridge H T M B)
  unfolding new_fixed index_from
  new_presign_bridge new_offline transport parameters session i participants =
      elim (index_from 0 i participants) [
        | none ↦ failed local_key_not_participant
        | some position ↦ elim (new_offline ((position + 1) % 2 ^ 16) participants) [
          | none ↦ failed sign_offline
          | some machine ↦
              done (new_bridge transport (new_fixed 6 parameters.threshold) machine session)
        ]
      ]

module _ {H T C M P K S : Type 0} (signing : Signing C M P K S) where
  -- `SignatureDriver::new`.
  unfoldable pub new_signature_bridge :
      Client H T
      → Parameters
      → SessionState
      → C
      → Bytes
      → Outcome Error (Bridge H T (SignOnlineDriver M P K) P)
  unfolding new_fixed public_key party_of outcome_then new_online
  new_signature_bridge transport parameters session completed_offline_stage message =
      outcome_then (party_of session (public_key transport)) λ number.
        outcome_then (new_online signing number completed_offline_stage message)
          λ driver. done (new_bridge transport (new_fixed 1 parameters.threshold) driver session)
