-- ===== src/Driver/Gg20/Driving.antt =====
-- The flows of driver/src/gg20/mod.rs taken apart, and what their waits for a driver give.
use mpc_sdk_framework.Prelude.{◌≡◌, refl, Option, none, some, nat_eq}
use mpc_sdk_framework.Channel.Noise.{TransportState}
use mpc_sdk_framework.Actions.{Outcome, done, failed, panicked, waiting}
use mpc_sdk_framework.Client.State.{Client}
use mpc_sdk_framework.Driver.State.{Error, ProtocolDriver, Serde}
use mpc_sdk_framework.Driver.Bridge.{Bridge}
use mpc_sdk_framework.Driver.Waiting.{Stream}
use mpc_sdk_framework.Driver.Outputs.{IsSound, wait_for_driver-Gives}
use mpc_sdk_framework.Driver.Holding.{Holds}
use mpc_sdk_framework.Driver.Gg20.Machines.{StateMachine, machine_driver, machine_finish}
use mpc_sdk_framework.Driver.Gg20.Starting.{outcome_then}
use mpc_sdk_framework.Driver.Gg20.Flows.{flow_then, released, drive}

pub outcome_cases :
    {A B : Type 0} (o : Outcome Error A) (k : A → Outcome Error B) {b : B}
    → outcome_then o k ≡ done b
    → (a : A) × (o ≡ done a) × (k a ≡ done b)
unfolding outcome_then
outcome_cases (done a) k e = (a, refl, e)
outcome_cases (failed x) k e = cc e
outcome_cases panicked k e = cc e
outcome_cases waiting k e = cc e

pub flow_cases :
    {A B : Type 0} (o : Outcome Error (Option A)) (k : A → Outcome Error (Option B)) {b : B}
    → flow_then o k ≡ done (some b)
    → (a : A) × (o ≡ done (some a)) × (k a ≡ done (some b))
unfolding flow_then outcome_then
flow_cases (done none) k e = cc e
flow_cases (done (some a)) k e = (a, refl, e)
flow_cases (failed x) k e = cc e
flow_cases panicked k e = cc e
flow_cases waiting k e = cc e

pub released_cases :
    {H T S A : Type 0} (transport : S → Client H T) (r : Outcome Error (Option A) × S)
    (x : Client H T × A)
    → released transport r ≡ done (some x)
    → r.0 ≡ done (some x.1)
unfolding released
released_cases transport (done none, s) x e = cc e
released_cases transport (done (some a), s) x e =
    let same : (transport s, a) ≡ x = cc e in rw (← same) refl
released_cases transport (failed y, s) x e = cc e
released_cases transport (panicked, s) x e = cc e
released_cases transport (waiting, s) x e = cc e

-- A wait for a sound driver that holds its property when it starts.
pub drive-given :
    {H T D B Output : Type 0} ⦃noise : TransportState T⦄ ⦃serde : Serde B⦄
    {protocol : ProtocolDriver D B Output} {R : D → Type 0} {Q : Output → Type 0}
    (sound : IsSound protocol R Q) (stream : Stream H T) (o : Outcome Error (Bridge H T D B))
    (x : Client H T × Output)
    → ((b : Bridge H T D B) → o ≡ done b → Holds R b)
    → drive protocol stream o ≡ done (some x)
    → Q x.1
unfolding drive
drive-given sound stream o x starts e =
    let (b, made, e1) = outcome_cases _ _ e in
    (wait_for_driver-Gives sound stream b (starts b made)).given (some x.1)
      (released_cases _ _ x e1)

-- An output of a state machine.
abbrev pub IsOutput : {M B Output : Type 0} → StateMachine M B Output → Output → Type 0
IsOutput {M} machine o = (m : M) × (machine.pick_output m ≡ some (some o))

pub machine_driver-IsSound :
    {M B Output : Type 0} (machine : StateMachine M B Output) (error : Error)
    → IsSound (machine_driver machine error) (λ m. Unit) (IsOutput machine)
unfolding machine_finish
machine_driver-IsSound {M} {B} {Output} machine error = record {
  incoming = λ m d p. tt;
  proceeds = λ d p. tt;
  finishes = λ d o p e. (d, picked o (machine.pick_output d) e);
}
  where
    picked :
        (o : Output) (r : Option (Option Output))
        → ◌≡◌ {A = Outcome Error Output}
            (elim r as (λ x. Outcome Error Output) [
              | none ↦ panicked
              | some none ↦ failed error
              | some (some output) ↦ done output
            ])
            (done o)
        → r ≡ some (some o)
    picked o none e = cc e
    picked o (some none) e = cc e
    picked o (some (some output)) e = cc e
