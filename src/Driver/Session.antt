-- ===== src/Driver/Session.antt =====
-- The handlers of driver/src/session.rs, which bring a session about.
use mpc_sdk_framework.Prelude.{
  Bool, true, false, List, [], ◌∷◌, Option, none, some, contains, nat_eq, list_eq, ◌&&◌, not,
  if◌then◌else◌,
}
use mpc_sdk_framework.Messages.{Bytes, SessionState}
use mpc_sdk_framework.Wire.{BinaryStream}
use mpc_sdk_framework.Channel.Noise.{TransportState, HandshakeState}
use mpc_sdk_framework.Sessions.{connections}
use mpc_sdk_framework.Actions.{Action, ◌>>=◌, ◌>>◌, act_then, pure, unwrap, read_state, write_state}
use mpc_sdk_framework.Client.State.{
  Client, Act, Event, session_created, session_ready, session_active, peer_connected,
}
use mpc_sdk_framework.Client.Options.{Builder, Codecs}
use mpc_sdk_framework.Client.Calls.{
  public_key, is_connected, new_session, connect_peer, register_connection,
}
use mpc_sdk_framework.Driver.State.{Error}
use mpc_sdk_framework.Driver.Bridge.{client_outcome}
use mpc_sdk_framework.Driver.Waiting.{Stream, wait_for}

pub record SessionInitiator (H T : Type 0) : Type 0 where
  pub transport : Client H T
  pub session_participants : List Bytes
  pub session_state : Option SessionState
  pub requested_session : Bool

pub record SessionParticipant (H T : Type 0) : Type 0 where
  pub transport : Client H T
  pub session_state : Option SessionState

module _ {H T : Type 0} where
  unfoldable pub new_initiator : Client H T → List Bytes → SessionInitiator H T
  new_initiator transport session_participants = record {
    transport = transport;
    session_participants = session_participants;
    session_state = none;
    requested_session = false;
  }

  unfoldable pub new_session_participant : Client H T → SessionParticipant H T
  new_session_participant transport = record { transport = transport; session_state = none }

  unfoldable pub by_initiator : {A : Type 0} → Act H T A → Action (SessionInitiator H T) Error A
  unfolding client_outcome
  by_initiator m s = let (r, c) = m s.transport in (client_outcome r, record s { transport = c })

  unfoldable pub by_participant : {A : Type 0} → Act H T A → Action (SessionParticipant H T) Error A
  unfolding client_outcome
  by_participant m s = let (r, c) = m s.transport in (client_outcome r, record s { transport = c })

module _ {H T : Type 0} ⦃handshakes : HandshakeState H T⦄ ⦃builder : Builder H⦄
    ⦃codecs : Codecs⦄ where
  -- Connects to each key, until the first error.
  unfoldable pub connect_peers : List Bytes → Act H T Unit
  unfolding ◌>>◌ pure connect_peer
  connect_peers [] = pure tt
  connect_peers (key ∷ keys) = do connect_peer key; connect_peers keys

module _ {H T : Type 0} ⦃bin : BinaryStream⦄ ⦃noise : TransportState T⦄ where
  unfoldable pub request_session : Action (SessionInitiator H T) Error Unit
  unfolding ◌>>=◌ ◌>>◌ act_then pure read_state write_state by_initiator new_session is_connected
  request_session = do
    s ← read_state
    if not s.requested_session && is_connected s.transport
        then (do
          by_initiator (new_session s.session_participants)
          t ← read_state
          write_state (record t { requested_session = true }))
        else pure tt

  -- A connection that this client is to make, when it has been made.
  unfoldable pub register : SessionState → Bytes → Act H T Unit
  unfolding ◌>>=◌ act_then pure read_state connections public_key register_connection
  register session peer_key = do
    c ← read_state
    if contains peer_key (connections session (public_key c))
        then register_connection session.session_id peer_key
        else pure tt

module _ {H T : Type 0} ⦃bin : BinaryStream⦄ ⦃noise : TransportState T⦄
    ⦃handshakes : HandshakeState H T⦄ ⦃builder : Builder H⦄ ⦃codecs : Codecs⦄ where
  -- Connects to the peers that a session says.
  unfoldable pub connect_session : SessionState → Act H T Unit
  unfolding ◌>>=◌ act_then read_state connections public_key connect_peers
  connect_session session = do c ← read_state; connect_peers (connections session (public_key c))

  unfoldable pub initiator_event : Event → Action (SessionInitiator H T) Error (Option SessionState)
  unfolding ◌>>=◌ ◌>>◌ act_then pure read_state write_state unwrap by_initiator connect_session
      register
  initiator_event (session_created session) = do
    s ← read_state
    write_state (record s { session_state = some session })
    pure none
  initiator_event (session_ready session) = do by_initiator (connect_session session); pure none
  initiator_event (peer_connected peer_key) = do
    s ← read_state
    session ← unwrap s.session_state
    by_initiator (register session peer_key)
    pure none
  initiator_event (session_active session) = pure (some session)
  initiator_event event = pure none

  unfoldable pub initiator_handle_event :
      Event → Action (SessionInitiator H T) Error (Option SessionState)
  unfolding ◌>>◌ request_session initiator_event
  initiator_handle_event event = do request_session; initiator_event event

  unfoldable pub participant_handle_event :
      Event → Action (SessionParticipant H T) Error (Option SessionState)
  unfolding ◌>>=◌ ◌>>◌ act_then pure read_state write_state by_participant connect_session register
  participant_handle_event (session_ready session) = do
    s ← read_state
    write_state (record s { session_state = some session })
    by_participant (connect_session session)
    pure none
  participant_handle_event (peer_connected peer_key) = do
    s ← read_state
    elim s.session_state [
      | none ↦ pure none
      | some session ↦ do by_participant (register session peer_key); pure none
    ]
  participant_handle_event (session_active session) = pure (some session)
  participant_handle_event event = pure none

  unfoldable pub set_initiator :
      (Client H T → Client H T) → SessionInitiator H T → SessionInitiator H T
  set_initiator left s = record s { transport = left s.transport }

  unfoldable pub initiator_wait_for_session :
      Stream H T → Action (SessionInitiator H T) Error (Option SessionState)
  unfolding wait_for set_initiator initiator_handle_event
  initiator_wait_for_session stream = wait_for set_initiator initiator_handle_event stream

  unfoldable pub set_participant :
      (Client H T → Client H T) → SessionParticipant H T → SessionParticipant H T
  set_participant left s = record s { transport = left s.transport }

  unfoldable pub participant_wait_for_session :
      Stream H T → Action (SessionParticipant H T) Error (Option SessionState)
  unfolding wait_for set_participant participant_handle_event
  participant_wait_for_session stream = wait_for set_participant participant_handle_event stream
