-- ===== src/Driver/Holding.antt =====
-- Calls of `Bridge` of driver/src/bridge.rs that keep a property of the driver which it holds.
use mpc_sdk_framework.Prelude.{◌≡◌, refl, List, [], ◌∷◌, Option, none, some, nat_eq, list_eq}
use mpc_sdk_framework.Channel.Noise.{TransportState}
use mpc_sdk_framework.Sessions.{peer_key, recipients}
use mpc_sdk_framework.Actions.{
  Outcome, done, failed, panicked, waiting, Action, act_then, ◌>>=◌, ◌>>◌, unwrap, read_state,
  Stays, bind-Stays, then-Stays, read-Stays, pure-Stays, if-Stays,
}
use mpc_sdk_framework.Client.State.{Act}
use mpc_sdk_framework.Client.Calls.{public_key, send_json, broadcast_json}
use mpc_sdk_framework.Driver.State.{Error, RoundMsg, is_broadcast, Serde}
use mpc_sdk_framework.Driver.Bridge.{
  Bridge, on_transport, on_driver, with_taken, send_each, send_broadcast, dispatch_round_messages,
}

-- What a call leaves and gives.
pub record Gives {S A : Type 0} (P : S → Type 0) (Q : A → Type 0) (r : Outcome Error A × S)
    : Type 0 where
  pub left : P r.1
  pub given : (a : A) → r.0 ≡ done a → Q a

module _ {S A B : Type 0} {P : S → Type 0} {Q : B → Type 0} where
  pub then-Gives :
      (r : Outcome Error A × S) (k : A → Action S Error B)
      → P r.1
      → ((a : A) (s : S) → P s → Gives P Q (k a s))
      → Gives P Q (act_then r k)
  unfolding act_then
  then-Gives (done a, s) k p next = next a s p
  then-Gives (failed e, s) k p next = record { left = p; given = λ a e. cc e }
  then-Gives (panicked, s) k p next = record { left = p; given = λ a e. cc e }
  then-Gives (waiting, s) k p next = record { left = p; given = λ a e. cc e }

  pub Gives-twice :
      {Q' : A → Type 0} (r : Outcome Error A × S) (k : A → Action S Error B)
      → Gives P Q' r
      → ((a : A) (s : S) → Q' a → P s → Gives P Q (k a s))
      → Gives P Q (act_then r k)
  unfolding act_then
  Gives-twice (done a, s) k g next = next a s (g.given a refl) g.left
  Gives-twice (failed e, s) k g next = record { left = g.left; given = λ a e. cc e }
  Gives-twice (panicked, s) k g next = record { left = g.left; given = λ a e. cc e }
  Gives-twice (waiting, s) k g next = record { left = g.left; given = λ a e. cc e }

-- Of an output, if there is one.
abbrev pub IfSome : {A : Type 0} → (A → Type 0) → Option A → Type 0
IfSome Q none = Unit
IfSome Q (some a) = Q a

module _ {H T D B : Type 0} (R : D → Type 0) where
  -- A property of the driver of a bridge, if there is one.
  abbrev pub Holds : Bridge H T D B → Type 0
  Holds b = (d : D) → b.driver ≡ some d → R d

  pub on_transport-Stays : {A : Type 0} (m : Act H T A) → Stays Holds (on_transport m)
  unfolding on_transport
  on_transport-Stays m = record { apply = λ b p d e. p d e }

  pub on_driver-Stays :
      {A : Type 0} (m : Action D Error A) → ((d : D) → R d → R (m d).1) → Stays Holds (on_driver m)
  unfolding on_driver
  on_driver-Stays {A} m keeps = record { apply = λ b p. called b b.driver refl p }
    where
      called :
          (b : Bridge H T D B) (o : Option D)
          → b.driver ≡ o
          → Holds b
          → Holds
              (elim o as (λ x. Outcome Error A × Bridge H T D B) [
                | none ↦ (panicked, b)
                | some d ↦ let (r, d') = m d in (r, record b { driver = some d' })
              ]).1
      called b none e p = p
      called b (some d) e p =
          λ d2 same. let q : (m d).1 ≡ d2 = cc same in rw (← q) (keeps d (p d e))

  pub with_taken-Gives :
      {A : Type 0} {Q : A → Type 0} (f : D → Outcome Error A)
      → ((d : D) (a : A) → R d → f d ≡ done a → Q a)
      → (b : Bridge H T D B) → Holds b
      → Gives Holds Q (with_taken f b)
  unfolding with_taken
  with_taken-Gives {A} {Q} f sound b p = called b b.driver refl p
    where
      called :
          (b : Bridge H T D B) (o : Option D)
          → b.driver ≡ o
          → Holds b
          → Gives Holds Q (elim o as (λ x. Outcome Error A × Bridge H T D B) [
            | none ↦ (panicked, b)
            | some d ↦ (f d, record b { driver = none })
          ])
      called b none e p = record { left = p; given = λ a e. cc e }
      called b (some d) e p = record { left = λ d2 same. cc same; given = λ a. sound d a (p d e) }

  module _ ⦃noise : TransportState T⦄ ⦃serde : Serde B⦄ where
    pub unwrap-Stays : {A : Type 0} (o : Option A) → Stays Holds (unwrap {E = Error} o)
    unfolding unwrap
    unwrap-Stays none = record { apply = λ b p. p }
    unwrap-Stays (some a) = record { apply = λ b p. p }

    pub send_each-Stays : (messages : List (RoundMsg B)) → Stays Holds (send_each messages)
    unfolding send_each
    send_each-Stays [] = pure-Stays tt
    send_each-Stays (message ∷ messages) = bind-Stays (unwrap-Stays message.receiver) λ party.
        read-Stays
          (λ b. unwrap (peer_key b.session party) >>= λ key.
            on_transport (send_json key (serde.to_vec message) (some b.session.session_id))
            >> send_each messages)
          λ b p.
            (bind-Stays (unwrap-Stays (peer_key b.session party)) λ key.
                then-Stays
                  (on_transport-Stays
                    (send_json key (serde.to_vec message) (some b.session.session_id)))
                  (send_each-Stays messages)).apply
              b p

    pub send_broadcast-Stays : (message : RoundMsg B) → Stays Holds (send_broadcast message)
    unfolding send_broadcast ◌>>=◌ act_then read_state
    send_broadcast-Stays message = record {
      apply = λ b p.
          (on_transport-Stays (
              broadcast_json b.session.session_id (recipients b.session (public_key b.transport))
                (serde.to_vec message))).apply
            b p;
    }

    pub dispatch-Stays :
        (messages : List (RoundMsg B)) → Stays Holds (dispatch_round_messages messages)
    unfolding dispatch_round_messages
    dispatch-Stays [] = send_each-Stays []
    dispatch-Stays (m ∷ []) =
        if-Stays (is_broadcast m) (send_broadcast-Stays m) (send_each-Stays (m ∷ []))
    dispatch-Stays (m ∷ m2 ∷ ms) = send_each-Stays (m ∷ m2 ∷ ms)
