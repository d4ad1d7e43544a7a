-- ===== src/Driver/Gg20/Flows.antt =====
-- `keygen` and `sign` of driver/src/gg20/mod.rs, which take a client from its options through a
-- session and the drivers to the end. The event loop runs only while one of the waits takes items from
-- its stream, so each wait has the part of the stream that it takes. What the loop leaves behind when
-- a flow ends is left out.
use mpc_sdk_framework.Prelude.{is_some, ℕ, Bool, List, Option, none, some, nat_eq, if◌then◌else◌}
use mpc_sdk_framework.Messages.{Bytes, SessionId, SessionState}
use mpc_sdk_framework.Wire.{BinaryStream}
use mpc_sdk_framework.Channel.Noise.{TransportState, HandshakeState}
use mpc_sdk_framework.Actions.{
  Outcome, done, failed, panicked, waiting, Action, ◌>>=◌, ◌>>◌, act_then, pure,
}
use mpc_sdk_framework.Client.State.{Client, Act, ClientOptions}
use mpc_sdk_framework.Client.Options.{Builder, Codecs, new}
use mpc_sdk_framework.Client.Calls.{connect, close_session, close}
use mpc_sdk_framework.Driver.State
use mpc_sdk_framework.Driver.State.{Error, non_zero, ProtocolDriver, Serde}
use mpc_sdk_framework.Driver.Bridge.{Bridge, client_outcome}
use mpc_sdk_framework.Driver.Waiting.{
  Stream, wait_for_driver, wait_for_close, wait_for_session_finish,
}
use mpc_sdk_framework.Driver.Session.{
  new_initiator, new_session_participant, initiator_wait_for_session, participant_wait_for_session,
}
use mpc_sdk_framework.Driver.Gg20.Machines.{StateMachine, machine_driver}
use mpc_sdk_framework.Driver.Gg20.Online.{Signing, Signature, address, online_driver}
use mpc_sdk_framework.Driver.Gg20.Participants.{participant_driver}
use mpc_sdk_framework.Driver.Gg20.Starting.{
  Parameters, outcome_then, new_participant_bridge, new_keygen_bridge, new_presign_bridge,
  new_signature_bridge,
}

-- `?` on a wait; `none` is one that still waits.
unfoldable pub flow_then :
    {A B : Type 0}
    → Outcome Error (Option A)
    → (A → Outcome Error (Option B))
    → Outcome Error (Option B)
unfolding outcome_then
flow_then o k = outcome_then o λ r. elim r [ none ↦ done none | some a ↦ k a ]

module _ {H T S A : Type 0} where
  -- The end of a wait, which gives back the client of the waiting side.
  unfoldable pub released :
      (S → Client H T) → Outcome Error (Option A) × S → Outcome Error (Option (Client H T × A))
  released transport (done none, s) = done none
  released transport (done (some a), s) = done (some (transport s, a))
  released transport (failed e, s) = failed e
  released transport (panicked, s) = panicked
  released transport (waiting, s) = waiting

module _ {H T D B Output : Type 0} ⦃noise : TransportState T⦄ ⦃serde : Serde B⦄ where
  -- Runs a driver that may have failed to start.
  unfoldable pub drive :
      ProtocolDriver D B Output
      → Stream H T
      → Outcome Error (Bridge H T D B)
      → Outcome Error (Option (Client H T × Output))
  unfolding outcome_then released wait_for_driver
  drive protocol stream started =
      outcome_then started
        λ b. released (λ bridge. bridge.transport) (wait_for_driver protocol stream b)

module _ {H T : Type 0} ⦃bin : BinaryStream⦄ ⦃noise : TransportState T⦄
    ⦃handshakes : HandshakeState H T⦄ ⦃builder : Builder H⦄ ⦃codecs : Codecs⦄ where
  -- With participants, as the one that initiates the session.
  unfoldable pub wait_for_session :
      Option (List Bytes)
      → Stream H T
      → Client H T
      → Outcome Error (Option (Client H T × SessionState))
  unfolding released initiator_wait_for_session participant_wait_for_session new_initiator
      new_session_participant
  wait_for_session (some participants) stream c =
      released (λ s. s.transport) (initiator_wait_for_session stream (new_initiator c participants))
  wait_for_session none stream c =
      released (λ s. s.transport) (participant_wait_for_session stream (new_session_participant c))

  -- A new client, given the status of the answer to its request to connect, and its session.
  unfoldable pub join_session :
      Option ℕ
      → ClientOptions
      → Option (List Bytes)
      → Stream H T
      → Outcome Error (Option (Client H T × SessionState))
  unfolding outcome_then client_outcome new connect wait_for_session
  join_session status options participants stream =
      outcome_then (client_outcome (new status options)) λ c.
        let (r, c1) = connect c in
        outcome_then (client_outcome r) λ _. wait_for_session participants stream c1

  unfoldable pub on_client : {A : Type 0} → Act H T A → Action (Client H T) Error A
  unfolding client_outcome
  on_client m c = let (r, c') = m c in (client_outcome r, c')

  unfoldable pub finish_session :
      Bool → SessionId → Stream H T → Action (Client H T) Error (Option Unit)
  unfolding ◌>>◌ ◌>>=◌ act_then pure on_client close_session wait_for_session_finish
  finish_session is_initiator session_id finishing =
      if is_initiator
      then (do on_client (close_session session_id); wait_for_session_finish session_id finishing)
      else pure (some tt)

  -- Close the session and the socket.
  unfoldable pub close_down :
      Bool → SessionId → Stream H T → Stream H T → Action (Client H T) Error (Option Unit)
  unfolding ◌>>◌ ◌>>=◌ act_then pure on_client close finish_session wait_for_close
  close_down is_initiator session_id finishing closing = do
    finished ← finish_session is_initiator session_id finishing
    elim finished [ none ↦ pure none | some u ↦ do on_client close; wait_for_close closing ]

-- `KeyShare` of driver/src/types.rs.
pub record KeyShare (L : Type 0) : Type 0 where
  pub private_key : L
  pub public_key : Bytes
  pub address : Bytes

module _ {C N P K S : Type 0} (signing : Signing C N P K S) where
  -- `From<crate::gg20::KeyShare> for KeyShare`, given the bytes of the public key of a local key.
  unfoldable pub key_share : {L : Type 0} → (L → Bytes) → L → Outcome Error (Option (KeyShare L))
  unfolding address
  key_share public_key local_key = elim (address signing (public_key local_key)) [
    | none ↦ panicked
    | some text ↦ done (
        some
          (record { private_key = local_key; public_key = public_key local_key; address = text }))
  ]

module _ {H T C N P K S : Type 0} ⦃bin : BinaryStream⦄ ⦃noise : TransportState T⦄
    ⦃handshakes : HandshakeState H T⦄ ⦃builder : Builder H⦄ ⦃codecs : Codecs⦄
    (signing : Signing C N P K S) where
  unfoldable pub keygen :
      {M B L : Type 0}
      → ⦃serde : Serde B⦄ → StateMachine M B L
      → (ℕ → ℕ → ℕ → Option M)
      → (L → Bytes)
      → Option ℕ
      → ClientOptions
      → Parameters
      → Option (List Bytes)
      → (joining driving finishing closing : Stream H T) → Outcome Error (Option (KeyShare L))
  unfolding flow_then join_session drive new_keygen_bridge close_down is_some key_share
  keygen machine new_keygen public_key status options parameters participants joining driving
        finishing closing =
      flow_then (join_session status options participants joining) λ joined.
        flow_then
          (drive (machine_driver machine State.keygen) driving
            (new_keygen_bridge new_keygen joined.0 parameters joined.1))
          λ driven.
            flow_then
              (close_down (is_some participants) joined.1.session_id finishing closing driven.0).0
              λ _. key_share signing public_key driven.1

  module _ {M B : Type 0} ⦃indices : Serde ℕ⦄ ⦃offline : Serde B⦄ ⦃partials : Serde P⦄
      (machine : StateMachine M B C) (i : ℕ) (new_offline : ℕ → List ℕ → Option M)
      (parameters : Parameters) (message : Bytes)
      (gathering presigning signing_stream : Stream H T) where
    -- The three drivers of `sign` in a session. `i` is the number of the local key, and `new_offline`
    -- starts the offline stage with that key.
    unfoldable pub sign_in_session :
        Client H T → SessionState → Outcome Error (Option (Client H T × Signature S))
    unfolding non_zero
    sign_in_session transport session = elim (non_zero i) [
      | none ↦ panicked
      | some index ↦
          flow_then
            (drive participant_driver gathering
              (new_participant_bridge transport parameters session index))
            λ gathered.
              flow_then
                (drive (machine_driver machine State.sign_offline) presigning
                  (new_presign_bridge new_offline gathered.0 parameters session i gathered.1))
                λ presigned.
                  drive (online_driver signing) signing_stream (
                    new_signature_bridge signing presigned.0 parameters session presigned.1 message)
    ]

    unfoldable pub sign :
        Option ℕ
        → ClientOptions
        → Option (List Bytes)
        → (joining finishing closing : Stream H T) → Outcome Error (Option (Signature S))
    sign status options participants joining finishing closing =
        flow_then (join_session status options participants joining) λ joined.
          flow_then (sign_in_session joined.0 joined.1) λ signed.
            flow_then
              (close_down (is_some participants) joined.1.session_id finishing closing signed.0).0
              λ _. done (some signed.1)
