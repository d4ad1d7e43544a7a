-- ===== src/Driver/Waiting.antt =====
-- The loops over the event stream: `wait_for_driver`, `wait_for_close` and `wait_for_session_finish` of
-- driver/src/bridge.rs, and what `wait_for_session` of driver/src/session.rs shares with them. The
-- event loop of the client runs while one of these waits for the stream. So a stream is the list of
-- the items that it yields, each with what the event loop makes of the state that it shares with the
-- client before it yields the item.
use mpc_sdk_framework.Prelude.{
  Bool, true, false, List, [], ◌∷◌, Option, none, some, nat_eq, list_eq, ◌==◌, if◌then◌else◌,
}
use mpc_sdk_framework.Messages.{SessionId}
use mpc_sdk_framework.Channel.Noise.{TransportState}
use mpc_sdk_framework.Actions.{done, Action, ◌>>=◌, ◌>>◌, act_then, pure, fail}
use mpc_sdk_framework.Client.State.{Client, Event, close, session_finished}
use mpc_sdk_framework.Client.Turns.{Item, ok, err}
use mpc_sdk_framework.Driver.State.{Error, client, ProtocolDriver, Serde}
use mpc_sdk_framework.Driver.Bridge.{Bridge, Drive, execute, handle_event}

pub record Yielded (H T : Type 0) : Type 0 where
  pub left : Client H T → Client H T
  pub item : Item

abbrev pub Stream : Type 0 → Type 0 → Type 0
Stream H T = List (Yielded H T)

module _ {S A : Type 0} where
  unfoldable pub wait_item :
      (Event → Action S Error (Option A))
      → Action S Error (Option A)
      → Item
      → Action S Error (Option A)
  unfolding ◌>>=◌ act_then pure fail
  wait_item handle rest (err e) = fail (client e)
  wait_item handle rest (ok event) = do
    result ← handle event
    elim result [ none ↦ rest | some a ↦ pure (some a) ]

module _ {H T S A : Type 0} (set : (Client H T → Client H T) → S → S)
    (handle : Event → Action S Error (Option A)) where
  -- `set` changes the client of the waiting side. `none` is a loop that still waits when the items
  -- are at an end.
  unfoldable pub wait_for : Stream H T → Action S Error (Option A)
  unfolding wait_item
  wait_for [] s = (done none, s)
  wait_for (y ∷ ys) s = wait_item handle (wait_for ys) y.item (set y.left s)

unfoldable pub is_close : Event → Bool
is_close close = true
is_close event = false

unfoldable pub is_finish : SessionId → Event → Bool
is_finish session_id (session_finished id) = session_id == id
is_finish session_id event = false

module _ {H T : Type 0} where
  -- An event that a loop with nothing but the client waits for.
  unfoldable pub seen : (Event → Bool) → Event → Action (Client H T) Error (Option Unit)
  unfolding pure
  seen test event = if test event then pure (some tt) else pure none

  unfoldable pub wait_for_close : Stream H T → Action (Client H T) Error (Option Unit)
  unfolding wait_for seen is_close
  wait_for_close stream = wait_for (λ left. left) (seen is_close) stream

  unfoldable pub wait_for_session_finish :
      SessionId → Stream H T → Action (Client H T) Error (Option Unit)
  unfolding wait_for seen is_finish
  wait_for_session_finish session_id stream =
      wait_for (λ left. left) (seen (is_finish session_id)) stream

  unfoldable pub set_bridge :
      {D B : Type 0} → (Client H T → Client H T) → Bridge H T D B → Bridge H T D B
  set_bridge left b = record b { transport = left b.transport }

module _ {H T D B Output : Type 0} ⦃noise : TransportState T⦄ ⦃serde : Serde B⦄
    (protocol : ProtocolDriver D B Output) where
  unfoldable pub wait_for_driver : Stream H T → Drive H T D B (Option Output)
  unfolding ◌>>◌ execute handle_event wait_for set_bridge
  wait_for_driver stream = do execute protocol; wait_for set_bridge (handle_event protocol) stream
