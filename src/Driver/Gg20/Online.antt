-- ===== src/Driver/Gg20/Online.antt =====
-- `SignOnlineDriver` of driver/src/gg20/sign.rs and `address` of driver/src/lib.rs.
use mpc_sdk_framework.Prelude.{
  ℕ, Bool, List, [], ◌∷◌, ◌++◌, Option, none, some, ltb, length, drop, nat_eq, if◌then◌else◌,
}
use mpc_sdk_framework.Messages.{Bytes}
use mpc_sdk_framework.Sessions.{party_number}
use mpc_sdk_framework.Actions.{Outcome, done, failed, panicked, Action, unwrap}
use mpc_sdk_framework.Driver.State.{
  Error, verify_signature, sign_manual, Msg, RoundMsg, from_round, ProtocolDriver,
}

-- The calls of `SignManual` and of `curv` that the online stage makes; `none` is their error.
pub record Signing (C M P K S : Type 0) : Type 0 where
  pub from_bytes : Bytes → ℕ
  pub public_key : C → K
  pub new : ℕ → C → Option (M × P)
  pub complete : M → List P → Option S
  pub verify : S → K → ℕ → Bool
  pub to_bytes : K → Bytes
  pub keccak256 : Bytes → Bytes
  pub hex : Bytes → Bytes

pub record Signature (S : Type 0) : Type 0 where
  pub signature : S
  pub public_key : Bytes
  pub address : Bytes

pub record SignOnlineDriver (M P K : Type 0) : Type 0 where
  pub party_number : ℕ
  pub data_ : ℕ
  pub public_key : K
  pub partial : P
  pub sign : M
  pub partials : List P

module _ {C M P K S : Type 0} (signing : Signing C M P K S) where
  -- The slices panic on a key without a byte and on a digest of less than twelve.
  unfoldable pub address : Bytes → Option Bytes
  address [] = none
  address (byte ∷ bytes) =
      let digest = signing.keccak256 bytes in
      if ltb (length digest) 12 then none else some (48 ∷ 120 ∷ signing.hex (drop 12 digest))

  unfoldable pub new_online : ℕ → C → Bytes → Outcome Error (SignOnlineDriver M P K)
  new_online party_number completed_offline_stage message =
      let data_ = signing.from_bytes message in
      elim (signing.new data_ completed_offline_stage) [
        | none ↦ failed sign_manual
        | some p ↦ done (record {
          party_number = party_number;
          data_ = data_;
          public_key = signing.public_key completed_offline_stage;
          partial = p.1;
          sign = p.0;
          partials = [];
        })
      ]

  unfoldable pub online_incoming : Msg P → Action (SignOnlineDriver M P K) Error Unit
  online_incoming message d = (done tt, record d { partials = d.partials ++ message.body ∷ [] })

  unfoldable pub online_proceed : Action (SignOnlineDriver M P K) Error (List (RoundMsg P))
  unfolding from_round unwrap
  online_proceed d =
      unwrap
        (from_round 1 (record { sender = d.party_number; receiver = none; body = d.partial } ∷ []))
        d

  unfoldable pub online_finish : SignOnlineDriver M P K → Outcome Error (Signature S)
  unfolding address
  online_finish d = elim (signing.complete d.sign d.partials) [
    | none ↦ failed sign_manual
    | some signature ↦
        if signing.verify signature d.public_key d.data_
        then elim (address (signing.to_bytes d.public_key)) [
          | none ↦ panicked
          | some text ↦ done (record {
            signature = signature;
            public_key = signing.to_bytes d.public_key;
            address = text;
          })
        ]
        else failed verify_signature
  ]

  abbrev pub online_driver : ProtocolDriver (SignOnlineDriver M P K) P (Signature S)
  online_driver = record {
    handle_incoming = online_incoming;
    proceed = online_proceed;
    finish = online_finish;
  }
