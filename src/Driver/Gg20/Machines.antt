-- ===== src/Driver/Gg20/Machines.antt =====
-- `KeygenDriver` of driver/src/gg20/keygen.rs and `SignOfflineDriver` of driver/src/gg20/sign.rs, over the
-- state machines of the crate `round_based`.
use mpc_sdk_framework.Prelude.{ℕ, Bool, List, Option, none, some, nat_eq, if◌then◌else◌}
use mpc_sdk_framework.Actions.{Outcome, done, failed, panicked, Action, unwrap}
use mpc_sdk_framework.Driver.State.{Error, Msg, RoundMsg, from_round, ProtocolDriver}

-- `StateMachine` of the crate `round_based`; `false` and the inner `none` are its error. `drain` is
-- `message_queue().drain(..)`.
pub record StateMachine (M B Output : Type 0) : Type 0 where
  pub handle_incoming : Msg B → M → Bool × M
  pub proceed : M → Bool × M
  pub drain : M → List (Msg B) × M
  pub current_round : M → ℕ
  pub pick_output : M → Option (Option Output)

-- `KeygenDriver` and `SignOfflineDriver`, which differ in the machine and the error.
module _ {M B Output : Type 0} (machine : StateMachine M B Output) (error : Error) where
  unfoldable pub machine_incoming : Msg B → Action M Error Unit
  machine_incoming message m =
      let (accepted, m') = machine.handle_incoming message m in
      if accepted then (done tt, m') else (failed error, m')

  unfoldable pub machine_proceed : Action M Error (List (RoundMsg B))
  unfolding from_round unwrap
  machine_proceed m =
      let (accepted, m1) = machine.proceed m in
      let (messages, m2) = machine.drain m1 in
      if accepted
      then unwrap (from_round (machine.current_round m2) messages) m2
      else (failed error, m1)

  unfoldable pub machine_finish : M → Outcome Error Output
  machine_finish m = elim (machine.pick_output m) [
    | none ↦ panicked
    | some none ↦ failed error
    | some (some output) ↦ done output
  ]

  abbrev pub machine_driver : ProtocolDriver M B Output
  machine_driver = record {
    handle_incoming = machine_incoming;
    proceed = machine_proceed;
    finish = machine_finish;
  }
