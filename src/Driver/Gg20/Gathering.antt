-- ===== src/Driver/Gg20/Gathering.antt =====
-- The messages that `ParticipantProtocolDriver` of driver/src/gg20/sign.rs gathers, behind `Bridge` of
-- driver/src/bridge.rs.
use mpc_sdk_framework.Prelude.{
  arith, ℕ, ◌+◌, ◌≡◌, refl, ◌∙◌, true, false, List, [], ◌∷◌, ◌++◌, append_assoc, append-nil, map,
  Option, none, some, get, get_inserted, nat_eq, list_eq, length, length-append, ◌==◌, beq_refl,
  All,
}
use mpc_sdk_framework.Messages.{Bytes, SessionId, SessionState}
use mpc_sdk_framework.Channel.Noise.{TransportState}
use mpc_sdk_framework.Rounds.{
  RoundBuffer, add_message, or_empty, is_ready, has_amount, take_round, len,
}
use mpc_sdk_framework.Actions.{
  Outcome, done, failed, panicked, waiting, Action, act_then, ◌>>=◌, ◌>>◌, pure, some_or,
  read_state, write_state,
}
use mpc_sdk_framework.Client.State.{Client, json_message}
use mpc_sdk_framework.Client.Turns.{ok}
use mpc_sdk_framework.Driver.State.{Error, Msg, RoundMsg, to_msg, Serde}
use mpc_sdk_framework.Driver.Bridge.{
  Bridge, handle_event, handle_json, handle_round, complete_round, handle_each, on_driver,
  with_taken, finish,
}
use mpc_sdk_framework.Driver.Waiting.{Yielded, wait_for, wait_item, set_bridge}
use mpc_sdk_framework.Driver.Gg20.Participants.{
  ParticipantProtocolDriver, participant_driver, participant_incoming, participant_finish, sort,
}

-- The events by which the messages of other parties arrive in a session: from a key, as JSON, with
-- what the event loop makes of the client before.
pub record Arrival (H T : Type 0) : Type 0 where
  pub left : Client H T → Client H T
  pub key : Bytes
  pub contents : Bytes
  pub message : RoundMsg ℕ

module _ {H T : Type 0} where
  unfoldable pub arrival_item : SessionId → Arrival H T → Yielded H T
  arrival_item id a = record {
    left = a.left;
    item = ok (json_message a.key (record { contents = a.contents }) (some id));
  }

  unfoldable pub share_number : Arrival H T → ℕ
  share_number a = a.message.body

-- A message of the first round, as its sender wrote it.
pub record IsArrival {H T : Type 0} ⦃serde : Serde ℕ⦄ (a : Arrival H T) : Type 0 where
  pub written : serde.from_slice a.contents ≡ some a.message
  pub first_round : a.message.round ≡ 1

unfoldable pub bodies : List (Msg ℕ) → List ℕ
bodies [] = []
bodies (m ∷ ms) = m.body ∷ bodies ms

bodies-append : (ms ns : List (Msg ℕ)) → bodies (ms ++ ns) ≡ bodies ms ++ bodies ns
unfolding bodies
bodies-append [] ns = refl
bodies-append (m ∷ ms) ns = rw (bodies-append ms ns)

-- A loop that its first event ends.
ends :
    {S A : Type 0} (r : Outcome Error (Option A) × S) (k : Action S Error (Option A)) (x : A)
    → r.0 ≡ done (some x)
    → (act_then r (λ result. elim result [ none ↦ k | some a ↦ pure (some a) ])).0 ≡ done (some x)
unfolding act_then pure
ends (done none, s) k x e = cc e
ends (done (some a), s) k x e = e
ends (failed y, s) k x e = cc e
ends (panicked, s) k x e = cc e
ends (waiting, s) k x e = cc e

module _ {H T : Type 0} (c : Client H T) (session : SessionState) where
  abbrev pub bridge :
      RoundBuffer (Msg ℕ) → ParticipantProtocolDriver → Bridge H T ParticipantProtocolDriver ℕ
  bridge buffer d = record { transport = c; buffer = buffer; driver = some d; session = session }

  -- What the driver makes of the messages of a round.
  handles :
      (ms : List (Msg ℕ)) (d : ParticipantProtocolDriver) (buffer : RoundBuffer (Msg ℕ))
      → handle_each participant_driver ms (bridge buffer d)
        ≡ (done tt, bridge buffer (record d { participants = d.participants ++ bodies ms }))
  unfolding handle_each ◌>>◌ ◌>>=◌ act_then pure on_driver participant_incoming bodies
  handles [] d buffer = rw (append-nil d.participants) refl
  handles (m ∷ ms) d buffer =
      handles ms (record d { participants = d.participants ++ m.body ∷ [] }) buffer
      ∙ rw (append_assoc d.participants (m.body ∷ []) (bodies ms)) refl

  module _ ⦃noise : TransportState T⦄ ⦃serde : Serde ℕ⦄ where
    -- A message that the round still waits after, and one that completes it.
    waits :
        (a : Arrival H T) (d : ParticipantProtocolDriver) (buffer : RoundBuffer (Msg ℕ))
        → IsArrival a
        → is_ready 1 (add_message 1 (to_msg a.message) buffer) ≡ false
        → handle_event participant_driver
            (json_message a.key (record { contents = a.contents }) (some session.session_id))
            (bridge buffer d)
          ≡ (done none, bridge (add_message 1 (to_msg a.message) buffer) d)
    unfolding handle_event handle_json handle_round ◌>>=◌ ◌>>◌ act_then read_state write_state
        some_or pure
    waits a d buffer arrived unready =
        rw
          (
            beq_refl session.session_id,
            arrived.written,
            some_or,
            act_then,
            arrived.first_round,
            unready,
          )
          refl

    completes :
        (a : Arrival H T) (d : ParticipantProtocolDriver) (buffer : RoundBuffer (Msg ℕ))
        → IsArrival a
        → is_ready 1 (add_message 1 (to_msg a.message) buffer) ≡ true
        → length buffer.expected ≡ 1
        → (handle_event participant_driver
            (json_message a.key (record { contents = a.contents }) (some session.session_id))
            (bridge buffer d)).0
          ≡ done (
              some (
                sort (
                  d.participants
                  ++ bodies (take_round 1 (add_message 1 (to_msg a.message) buffer)).0)))
    unfolding handle_event handle_json handle_round complete_round finish with_taken
        participant_finish ◌>>=◌ ◌>>◌ act_then read_state write_state some_or pure len
    completes a d buffer arrived ready single =
        rw
          (
            beq_refl session.session_id,
            arrived.written,
            some_or,
            act_then,
            arrived.first_round,
            ready,
            handles (take_round 1 (add_message 1 (to_msg a.message) buffer)).0 d
                (take_round 1 (add_message 1 (to_msg a.message) buffer)).1,
            act_then,
            single,
            finish,
          )
          refl

    added :
        (n : ℕ) (held : List (Msg ℕ)) (m : Msg ℕ) (buffer : RoundBuffer (Msg ℕ))
        → buffer.expected ≡ (1, n) ∷ []
        → or_empty (get 1 buffer.messages) ≡ held
        → is_ready 1 (add_message 1 m buffer) ≡ (length held + 1 == n)
    unfolding is_ready add_message has_amount get
    added n held m buffer expected holds =
        rw
          (
            expected,
            get_inserted 1 (or_empty (get 1 buffer.messages) ++ m ∷ []) buffer.messages,
            holds,
            length-append held (m ∷ []),
          )
          refl

    taken :
        (held : List (Msg ℕ)) (m : Msg ℕ) (buffer : RoundBuffer (Msg ℕ))
        → or_empty (get 1 buffer.messages) ≡ held
        → (take_round 1 (add_message 1 m buffer)).0 ≡ held ++ m ∷ []
    unfolding take_round add_message or_empty
    taken held m buffer holds =
        rw (get_inserted 1 (or_empty (get 1 buffer.messages) ++ m ∷ []) buffer.messages, holds) refl

module _ {H T : Type 0} ⦃noise : TransportState T⦄ ⦃serde : Serde ℕ⦄ where
  pub gathers :
      (c : Client H T) (session : SessionState) (n : ℕ) (a : Arrival H T)
      (arrivals : List (Arrival H T)) (held : List (Msg ℕ)) (d : ParticipantProtocolDriver)
      (buffer : RoundBuffer (Msg ℕ))
      → All IsArrival (a ∷ arrivals)
      → buffer.expected ≡ (1, n) ∷ []
      → or_empty (get 1 buffer.messages) ≡ held
      → length held + length (a ∷ arrivals) ≡ n
      → (wait_for set_bridge
          (handle_event participant_driver)
          (map (arrival_item session.session_id) (a ∷ arrivals))
          (bridge c session buffer d)).0
        ≡ done (some (sort (d.participants ++ bodies held ++ map share_number (a ∷ arrivals))))
  unfolding wait_for wait_item set_bridge arrival_item share_number ◌>>=◌ bodies to_msg take_round
      add_message
  gathers c session n a [] held d buffer arrived expected holds count =
      let ready : is_ready 1 (add_message 1 (to_msg a.message) buffer) ≡ true =
        rw (added (a.left c) session n held (to_msg a.message) buffer expected holds, ← count)
          (beq_refl (length held + 1)) in
      let result = completes (a.left c) session a d buffer arrived.0 ready (rw expected refl) in
      ends _ _ _ (
        result
        ∙ rw
            (
              taken (a.left c) session held (to_msg a.message) buffer holds,
              bodies-append held (to_msg a.message ∷ []),
              append_assoc d.participants (bodies held) (a.message.body ∷ []),
            )
            refl)
  gathers c session n a (a2 ∷ arrivals) held d buffer arrived expected holds count =
      let unready : is_ready 1 (add_message 1 (to_msg a.message) buffer) ≡ false =
        rw (added (a.left c) session n held (to_msg a.message) buffer expected holds)
          (ground arith) in
      rw (waits (a.left c) session a d buffer arrived.0 unready, act_then)
        (gathers (a.left c) session n a2 arrivals (held ++ to_msg a.message ∷ []) d
            (add_message 1 (to_msg a.message) buffer) arrived.1 expected
            (taken (a.left c) session held (to_msg a.message) buffer holds)
            (rw (length-append held (to_msg a.message ∷ [])) (omega arith))
          ∙ rw
              (
                bodies-append held (to_msg a.message ∷ []),
                append_assoc d.participants (bodies held)
                    (a.message.body ∷ map share_number (a2 ∷ arrivals)),
                append_assoc d.participants (bodies held ++ a.message.body ∷ [])
                    (map share_number (a2 ∷ arrivals)),
                append_assoc (bodies held) (a.message.body ∷ []) (map share_number (a2 ∷ arrivals)),
              )
              refl)
